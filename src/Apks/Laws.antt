-- ===== src/Apks/Laws.antt =====
-- Who may upload an apk, and how many versions there are.
use damaru_server.Prelude.{
  String, ◌≡◌, refl, sym, ◌∙◌, Bool, true, false, Option, none, some, List, [], ◌∷◌, Memᴰ,
  Option-cases, Bool-cases, inl, inr, ◌==◌,
}
use mathlib.Core.Path.{subst}
use damaru_server.Prelude.Exec.{
  Result, ok, err, Exception, unauthorized, pure, ◌>>◌, continue-keeps,
}
use damaru_server.Token.{JwtToken, super_admin, role_name}
use damaru_server.Guards.{super_admin_guard}
use damaru_server.Guards.Laws.{super_guard, can_activate_refusal}
use damaru_server.Apks.{
  Apk, ApkRepository, Multer, ApkConfig, ApkDto, ApkState, ApkAnswer, UploadedFile, ApkRequest,
  upload, get, download, first, saved_apks, get_latest_apk_path, replace_apks, upload_apk,
  intercept_file, serve_apks, admitted, guarded_upload, message,
}

-- All rows of the table are one row.
abbrev pub AtMostOne : {Number : Type 0} → List (Apk Number) → Type 0
AtMostOne {Number} rows = (a b : Apk Number) → Memᴰ a rows → Memᴰ b rows → a ≡ b

-- A token of a super admin
abbrev pub IsSuperAdmin : Option JwtToken → Type 0
IsSuperAdmin none = ⊥
IsSuperAdmin (some user) = user.role ≡ role_name super_admin

admitted-err :
    (token : Option JwtToken) → ¬ IsSuperAdmin token → (e : Exception) × (admitted token ≡ err e)
admitted-err none h = (unauthorized "Unauthorized", refl)
admitted-err (some user) h = (
  unauthorized "You are not authorized",
  (can_activate_refusal super_admin_guard user (λ a. h (super_guard user a))).0,
)

module _ {Number Content : Type 0} {at_most : Number → Number → Bool} (R : ApkRepository at_most)
    (m : Multer Content) (config : ApkConfig) (parse_int : String → Number) where
  abbrev pub ask :
      Option JwtToken
      → ApkRequest Content
      → ApkState Number Content
      → Result (ApkAnswer Number Content) × ApkState Number Content
  ask = serve_apks R m config parse_int

  reads_keep :
      (token : Option JwtToken) (s : ApkState Number Content)
      → ((ask token get s).1 ≡ s) × ((ask token download s).1 ≡ s)
  unfolding serve_apks get_latest_apk_path
  reads_keep token s = elim (Option-cases (first (R.find_latest 1 s.rows))) [
    | inl missing ↦ (rw missing refl, rw missing refl)
    | inr (a, found) ↦ (rw found refl, rw found refl)
  ]

  -- Who is not a super admin changes neither the table nor the files, whatever the request: an upload
  -- is refused, and the other two routes only read.
  pub serve_apks-unchanged :
      (token : Option JwtToken) (request : ApkRequest Content) (s : ApkState Number Content)
      → ¬ IsSuperAdmin token
      → (ask token request s).1 ≡ s
  unfolding serve_apks
  serve_apks-unchanged token (upload dto file) s h =
      let (e, refused) = admitted-err token h in rw refused refl
  serve_apks-unchanged token get s h = (reads_keep token s).0
  serve_apks-unchanged token download s h = (reads_keep token s).1

  nil-AtMostOne : (rows : List (Apk Number)) → rows ≡ [] → AtMostOne rows
  nil-AtMostOne rows e = subst AtMostOne (sym e) (λ a b m. elim m [ ])

  pub inserted-new :
      (a b : Apk Number) (rows t : List (Apk Number))
      → rows ≡ []
      → R.insert a rows ≡ some t
      → Memᴰ b t
      → b ≡ a
  inserted-new a b rows t empty e n = elim (R.mem-insert a b rows t e n) [
    | inl same ↦ same
    | inr old ↦ absurd (elim (subst (Memᴰ b) empty old) [ ])
  ]

  saved-AtMostOne :
      (a : Apk Number) (s : ApkState Number Content)
      → s.rows ≡ []
      → AtMostOne (saved_apks (R.insert a s.rows) s).1.rows
  saved-AtMostOne a s empty = elim (Option-cases (R.insert a s.rows)) [
    | inl refused ↦ rw refused (nil-AtMostOne s.rows empty)
    | inr (t, e) ↦
        rw e (λ b c p q.
          inserted-new a b s.rows t empty e p ∙ sym (inserted-new a c s.rows t empty e q))
  ]

  replaced :
      (dto : ApkDto) (s : ApkState Number Content)
      → AtMostOne s.rows
      → AtMostOne (replace_apks R m config parse_int dto s).1.rows
  unfolding replace_apks
  replaced dto s h = elim (Option-cases (R.delete_all s.rows)) [
    | inl refused ↦ rw refused h
    | inr (t, e) ↦
        let empty = R.delete-nil s.rows t e in
        elim (Option-cases dto.version) [
          | inl missing ↦ rw (e, missing) (nil-AtMostOne t empty)
          | inr (version, given) ↦ elim (Option-cases dto.force) [
            | inl missing ↦ rw (e, given, missing) (nil-AtMostOne t empty)
            | inr (force, given') ↦
                rw (e, given, given') (saved-AtMostOne _ (record s { rows = t }) empty)
          ]
        ]
  ]

  filtered-rows :
      (file : Option (UploadedFile Content)) (s : ApkState Number Content)
      → (intercept_file R m config parse_int file s).1.rows ≡ s.rows
  unfolding intercept_file
  filtered-rows none s = refl
  filtered-rows (some file) s =
      elim (Bool-cases (file.mimetype == "application/vnd.android.package-archive")) [
        | inl fits ↦ rw fits refl
        | inr other ↦ rw other refl
      ]

  abbrev Few : ApkState Number Content → Type 0
  Few s = AtMostOne s.rows

  uploaded-AtMostOne :
      (dto : ApkDto) (file : Option (UploadedFile Content)) (s : ApkState Number Content)
      → AtMostOne s.rows
      → AtMostOne (upload_apk R m config parse_int dto file s).1.rows
  unfolding upload_apk
  uploaded-AtMostOne dto none s h = h
  uploaded-AtMostOne dto (some file) s h =
      continue-keeps Few (replace_apks R m config parse_int dto s)
        (λ _. pure (message "APK uploaded successfully")) (replaced dto s h) (λ _ t k. k)

  guarded-AtMostOne :
      (r : Result Bool) (dto : ApkDto) (file : Option (UploadedFile Content))
      (s : ApkState Number Content)
      → AtMostOne s.rows
      → AtMostOne
          (guarded_upload R m config parse_int r
            (intercept_file R m config parse_int file >> upload_apk R m config parse_int dto file)
            s).1.rows
  guarded-AtMostOne (ok true) dto file s h =
      continue-keeps Few (intercept_file R m config parse_int file s)
        (λ _. upload_apk R m config parse_int dto file)
        (subst AtMostOne (sym (filtered-rows file s)) h) (λ _ t k. uploaded-AtMostOne dto file t k)
  guarded-AtMostOne (ok false) dto file s h = h
  guarded-AtMostOne (err e) dto file s h = h

  served-AtMostOne :
      (token : Option JwtToken) (request : ApkRequest Content) (s : ApkState Number Content)
      → AtMostOne s.rows
      → AtMostOne (ask token request s).1.rows
  unfolding serve_apks
  served-AtMostOne token (upload dto file) s h = guarded-AtMostOne (admitted token) dto file s h
  served-AtMostOne token get s h = rw ((reads_keep token s).0) h
  served-AtMostOne token download s h = rw ((reads_keep token s).1) h

  -- Requests one after another, each with its token
  abbrev pub run :
      List (Option JwtToken × ApkRequest Content)
      → ApkState Number Content
      → ApkState Number Content
  run [] s = s
  run ((token, request) ∷ rest) s = run rest (ask token request s).1

  -- From a table with one apk at most, any requests, with any tokens and however they end, lead to a
  -- table with one apk at most.
  pub run-AtMostOne :
      (requests : List (Option JwtToken × ApkRequest Content)) (s : ApkState Number Content)
      → AtMostOne s.rows
      → AtMostOne (run requests s).rows
  run-AtMostOne [] s h = h
  run-AtMostOne ((token, request) ∷ rest) s h =
      run-AtMostOne rest (ask token request s).1 (served-AtMostOne token request s h)
