-- ===== src/Apks/Uploads.antt =====
-- What the reading routes answer after an upload.
use mathlib.Core.Path.{subst}
use Prim.Native.String.{◌++◌}
use damaru_server.Prelude.{
  String, ◌≡◌, refl, sym, ap, ◌∙◌, Bool, true, false, Option, none, some, List, [], ◌∷◌, arith,
  Bool-cases, inl, inr, ◌==◌,
}
use damaru_server.Prelude.Exec.{Result, ok, err, bad_request, type_error, continue-eq-ok, ◌>>◌}
use damaru_server.Token.{JwtToken}
use damaru_server.Guards.{http, super_admin_guard}
use damaru_server.Guards.Laws.{super_guard, can_activate_iff}
use damaru_server.Apks.{
  Apk, ApkRepository, Multer, ApkConfig, ApkDto, ApkState, ApkAnswer, UploadedFile, upload, get,
  download, first, file_name, saved_apks, get_latest_apk_path, replace_apks, upload_apk,
  intercept_file, guarded_upload, serve_apks, admitted, details, sent_file,
}
use damaru_server.Apks.Laws.{ask, IsSuperAdmin, inserted-new}

abbrev pub form : Option String → Option String → ApkDto
form version force = record { version = version; force = force }

abbrev pub is_apk : {Content : Type 0} → UploadedFile Content → Bool
is_apk file = file.mimetype == "application/vnd.android.package-archive"

admitted-ok : (token : Option JwtToken) → admitted token ≡ ok true → IsSuperAdmin token
admitted-ok none e = cc
admitted-ok (some user) e =
    super_guard user (((can_activate_iff super_admin_guard http user).0 e).1)

module _ {Number Content : Type 0} {at_most : Number → Number → Bool} (R : ApkRepository at_most)
    (m : Multer Content) (config : ApkConfig) (parse_int : String → Number) where
  abbrev pub new_apk : String → String → Apk Number
  new_apk version force = record {
    version = parse_int version;
    force = force == "true";
    link = file_name;
  }

  saved-eq-ok :
      (o : Option (List (Apk Number))) (s t : ApkState Number Content)
      → saved_apks o s ≡ (ok tt, t)
      → (rows : List (Apk Number)) × (o ≡ some rows) × (t ≡ record s { rows = rows })
  saved-eq-ok none s t e = absurd (cc)
  saved-eq-ok (some rows) s t e = (rows, refl, cc)

  -- A deletion and an insertion that succeed leave the new row alone.
  replace-eq-ok :
      (version force : String) (s t : ApkState Number Content)
      → replace_apks R m config parse_int (form (some version) (some force)) s ≡ (ok tt, t)
      → (rows : List (Apk Number)) × (R.insert (new_apk version force) [] ≡ some rows)
        × (t ≡ record s { rows = rows })
  unfolding replace_apks
  replace-eq-ok version force s t e =
      let (_, s1, deleted, rest) = continue-eq-ok (saved_apks (R.delete_all s.rows) s) _ tt t e in
      let (old, gone, same) = saved-eq-ok (R.delete_all s.rows) s s1 deleted in
      let empty = R.delete-nil s.rows old gone in
      let end : saved_apks (R.insert (new_apk version force) s1.rows) s1 ≡ (ok tt, t) = rest in
      let (rows, added, last) = saved-eq-ok (R.insert (new_apk version force) s1.rows) s1 t end in
      let now_empty : s1.rows ≡ [] = ap (λ (x : ApkState Number Content). x.rows) same ∙ empty in
      (
        rows,
        subst (λ l. R.insert (new_apk version force) l ≡ some rows) now_empty added,
        last ∙ ap (λ (x : ApkState Number Content). record x { rows = rows }) same,
      )

  found_first :
      (a : Apk Number) (rows found : List (Apk Number))
      → R.insert a [] ≡ some rows
      → R.find_latest 1 rows ≡ found
      → first found ≡ some a
  found_first a rows [] e none' = absurd (R.find-nil rows a none' (R.insert-mem a [] rows e))
  found_first a rows (b ∷ rest) e found =
      ap some (inserted-new R m config parse_int a b [] rows refl e (R.find-mem rows rest b found))

  found_none : (found : List (Apk Number)) → R.find_latest 1 [] ≡ found → first found ≡ none
  found_none [] e = refl
  found_none (b ∷ rest) e = absurd (elim (R.find-mem [] rest b e) [ ])

  -- What the file's interceptor and the service do, if both return
  upload-eq-ok :
      (version force : String) (file : UploadedFile Content) (answer : ApkAnswer Number Content)
      (s t : ApkState Number Content)
      → (intercept_file R m config parse_int (some file)
            >> upload_apk R m config parse_int (form (some version) (some force)) (some file))
          s
        ≡ (ok answer, t)
      → (rows : List (Apk Number)) × (R.insert (new_apk version force) [] ≡ some rows)
        × (t.rows ≡ rows)
        × (t.disk (config.apk_path ++ "/" ++ file_name) ≡ some file.content)
  unfolding intercept_file upload_apk
  upload-eq-ok version force file answer s t e =
      let dto = form (some version) (some force) in
      elim (Bool-cases (is_apk file)) [
        | inr other ↦ absurd (ground (arith, e, other))
        | inl fits ↦
            let (_, s1, stored, rest) =
              continue-eq-ok (intercept_file R m config parse_int (some file) s) _ answer t e in
            let (_, s2, replaced, last) =
              continue-eq-ok (replace_apks R m config parse_int dto s1) _ answer t rest in
            let (rows, added, same) = replace-eq-ok version force s1 s2 replaced in
            let here : s1
                ≡ record s { disk = m.store config.apk_path file_name file.content s.disk } =
              ground (arith, stored, fits) in
            let end : s2 ≡ t =
              ap (λ (x : Result (ApkAnswer Number Content) × ApkState Number Content). x.1) last in
            (
              rows,
              added,
              ap (λ (x : ApkState Number Content). x.rows) (sym end ∙ same),
              ap (λ (x : ApkState Number Content). x.disk (config.apk_path ++ "/" ++ file_name))
                    (sym end ∙ same)
                  ∙ ap
                      (λ (x : ApkState Number Content).
                        x.disk (config.apk_path ++ "/" ++ file_name))
                      here
                  ∙ m.store-path config.apk_path file_name file.content s.disk,
            )
      ]

  admitted_run :
      (r : Result Bool) (version force : String) (file : UploadedFile Content)
      (answer : ApkAnswer Number Content) (s t : ApkState Number Content)
      → guarded_upload R m config parse_int r
          (intercept_file R m config parse_int (some file)
            >> upload_apk R m config parse_int (form (some version) (some force)) (some file))
          s
        ≡ (ok answer, t)
      → (r ≡ ok true)
        × ((intercept_file R m config parse_int (some file)
                >> upload_apk R m config parse_int (form (some version) (some force)) (some file))
              s
            ≡ (ok answer, t))
  admitted_run (ok true) version force file answer s t e = (refl, e)
  admitted_run (ok false) version force file answer s t e = absurd (cc)
  admitted_run (err x) version force file answer s t e = absurd (cc)

  abbrev pub path : String
  path = config.apk_path ++ "/" ++ file_name

  -- What the two reading routes answer
  pub record Reads (version force : String) (c : Content) (t : ApkState Number Content)
      (reader : Option JwtToken) : Type 0 where
    pub got : ask R m config parse_int reader get t ≡ (
      ok (
          details
            (record (new_apk version force) { link = config.screenshot_url ++ "/apks/download" })),
      t,
    )
    pub downloaded : ask R m config parse_int reader download t ≡ (ok (sent_file path (some c)), t)

  reads :
      (version force : String) (c : Content) (t : ApkState Number Content)
      (reader : Option JwtToken)
      → first (R.find_latest 1 t.rows) ≡ some (new_apk version force)
      → t.disk path ≡ some c
      → Reads version force c t reader
  unfolding serve_apks get_latest_apk_path
  reads version force c t reader found there = record {
    got = rw found refl;
    downloaded = rw found (rw there refl);
  }

  -- After an upload that returns, which is then a super admin's, every reader is answered with the
  -- version and the flag of its form and the public link, and is sent the file that was uploaded.
  pub upload-Reads :
      (token : Option JwtToken) (version force : String) (file : UploadedFile Content)
      (answer : ApkAnswer Number Content) (s t : ApkState Number Content)
      → ask R m config parse_int token (upload (form (some version) (some force)) (some file)) s
        ≡ (ok answer, t)
      → IsSuperAdmin token
        × ((reader : Option JwtToken) → Reads version force file.content t reader)
  unfolding serve_apks
  upload-Reads token version force file answer s t e =
      let (open', rest) = admitted_run (admitted token) version force file answer s t e in
      let (rows, added, table, disk) = upload-eq-ok version force file answer s t rest in
      (
        admitted-ok token open',
        λ reader.
            reads version force file.content t reader
              (ap (λ l. first (R.find_latest 1 l)) table
                ∙ found_first (new_apk version force) rows (R.find_latest 1 rows) added refl)
              disk,
      )

  -- A super admin's upload of an apk whose form has no version: if the deletion succeeds, the request
  -- throws a TypeError after it, the table is empty, and every reader is told that there is no apk.
  pub upload_without_version :
      (user : JwtToken) (force : Option String) (file : UploadedFile Content)
      (s : ApkState Number Content) (rows : List (Apk Number))
      → IsSuperAdmin (some user)
      → is_apk file ≡ true
      → R.delete_all s.rows ≡ some rows
      → let (r, t) =
          ask R m config parse_int (some user) (upload (form none force) (some file)) s in
        (r ≡ err type_error)
        × (t.rows ≡ [])
        × ((reader : Option JwtToken)
            → ask R m config parse_int reader get t ≡ (err (bad_request "No APK found!"), t))
  unfolding serve_apks intercept_file upload_apk replace_apks get_latest_apk_path
  upload_without_version user force file s rows allowed fits gone =
      let empty = R.delete-nil s.rows rows gone in
      let open' = (can_activate_iff super_admin_guard http user).1 (λ p. cc, inl allowed) in
      rw open' (
        rw fits (
          rw gone
            (refl, empty, λ reader. rw empty (rw (found_none (R.find_latest 1 []) refl) refl))))
