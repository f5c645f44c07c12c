-- ===== src/Tests/Apks.antt =====
-- A table of apks in memory, whose versions are natural numbers, and uploads to it.
use Prim.Native.String.{◌++◌}
use Prim.Native.Nat.{compare, Ordering}
use mathlib.Core.Path.{subst}
use damaru_server.Prelude.{
  ℕ, zero, suc, String, ◌≡◌, refl, Bool, true, false, Option, none, some, List, [], ◌∷◌, Memᴰ,
  arith, Option-cases, Bool-cases, eq_true, inl, inr, ◌==◌, ◌⊎◌, if◌then◌else◌,
}
use damaru_server.Prelude.Exec.{Result, ok, err, bad_request, type_error}
use damaru_server.Token.{JwtToken}
use damaru_server.Guards.{can_activate, authorized, is_authorized}
use damaru_server.Apks.{
  Apk, ApkRepository, Multer, ApkConfig, ApkState, ApkAnswer, UploadedFile, ApkRequest, upload, get,
  download, serve_apks, upload_apk, replace_apks, intercept_file, message,
}
use damaru_server.Apks.Laws.{AtMostOne, IsSuperAdmin, ask, run, serve_apks-unchanged, run-AtMostOne}
use damaru_server.Apks.Uploads.{Reads, form, upload-Reads, upload_without_version}
use damaru_server.Tests.{root_token}
use damaru_server.Tests.System.{super_token}

abbrev leb : ℕ → ℕ → Bool
leb a b = elim (compare a b) [ Ordering.gt ↦ false | _ ↦ true ]

-- The row with the greatest version
abbrev better : Apk ℕ → Option (Apk ℕ) → Apk ℕ
better a none = a
better a (some b) = if leb b.version a.version then a else b

newest : List (Apk ℕ) → Option (Apk ℕ)
newest [] = none
newest (a ∷ rest) = some (better a (newest rest))

abbrev as_list : Option (Apk ℕ) → List (Apk ℕ)
as_list none = []
as_list (some a) = a ∷ []

newest-mem : (rows : List (Apk ℕ)) (a : Apk ℕ) → newest rows ≡ some a → Memᴰ a rows
unfolding newest
newest-mem [] a e = absurd (cc)
newest-mem (b ∷ rest) a e = elim (Option-cases (newest rest)) [
  | inl missing ↦ Memᴰ.head (ground (arith, e, missing))
  | inr (c, found) ↦ elim (Bool-cases (leb c.version b.version)) [
    | inl less ↦ Memᴰ.head (ground (arith, e, found, less))
    | inr more ↦ Memᴰ.tail (newest-mem rest a (ground (arith, e, found, more)))
  ]
]

newest-none : (rows : List (Apk ℕ)) (b : Apk ℕ) → newest rows ≡ none → Memᴰ b rows → ⊥
unfolding newest
newest-none [] b e m = elim m [ ]
newest-none (a ∷ rest) b e m = cc

newest-greatest :
    (rows : List (Apk ℕ)) (a b : Apk ℕ)
    → newest rows ≡ some a
    → Memᴰ b rows
    → leb b.version a.version ≡ true
unfolding newest
newest-greatest [] a b e m = absurd (cc)
newest-greatest (c ∷ rest) a b e (Memᴰ.head same) = elim (Option-cases (newest rest)) [
  | inl missing ↦ ground (arith, e, missing, same)
  | inr (d, found) ↦ ground (arith, e, found, same)
]
newest-greatest (c ∷ rest) a b e (Memᴰ.tail m) = elim (Option-cases (newest rest)) [
  | inl missing ↦ absurd (newest-none rest b missing m)
  | inr (d, found) ↦ ground (arith, e, found, newest-greatest rest d b found m)
]

as_list-first :
    (o : Option (Apk ℕ)) (a : Apk ℕ) (rest : List (Apk ℕ)) → as_list o ≡ a ∷ rest → o ≡ some a
as_list-first none a rest e = absurd (cc)
as_list-first (some b) a rest e = ground (arith, e)

as_list-none : (o : Option (Apk ℕ)) → as_list o ≡ [] → o ≡ none
as_list-none none e = refl
as_list-none (some b) e = absurd (cc)

from-head : (a b : Apk ℕ) (rows : List (Apk ℕ)) → Memᴰ b (a ∷ rows) → (b ≡ a) ⊎ Memᴰ b rows
from-head a b rows (Memᴰ.head same) = inl same
from-head a b rows (Memᴰ.tail m) = inr m

abbrev find_newest : ℕ → List (Apk ℕ) → List (Apk ℕ)
find_newest zero rows = []
find_newest (suc n) rows = as_list (newest rows)

from-cons :
    (a b : Apk ℕ) (rows t : List (Apk ℕ))
    → some (a ∷ rows) ≡ some t
    → Memᴰ b t
    → (b ≡ a) ⊎ Memᴰ b rows
from-cons a b rows t e m = from-head a b rows (subst (Memᴰ b) (ground (arith, e)) m)

from-nil : (rows t : List (Apk ℕ)) → some [] ≡ some t → t ≡ []
from-nil rows t e = cc

new-mem : (a : Apk ℕ) (rows t : List (Apk ℕ)) → some (a ∷ rows) ≡ some t → Memᴰ a t
new-mem a rows t e =
    let same : a ∷ rows ≡ t = ground (arith, e) in subst (Memᴰ a) same (Memᴰ.head refl)

abbrev table : ApkRepository leb
unfolding newest
table = record {
  find_latest = find_newest;
  delete_all = λ rows. some [];
  insert = λ a rows. some (a ∷ rows);
  find-mem = λ rows rest a e. newest-mem rows a (as_list-first (newest rows) a rest e);
  find-latest =
      λ rows rest a b e m. newest-greatest rows a b (as_list-first (newest rows) a rest e) m;
  find-nil = λ rows a e m. newest-none rows a (as_list-none (newest rows) e) m;
  delete-nil = from-nil;
  insert-mem = new-mem;
  mem-insert = from-cons;
}

abbrev store : String → String → String → (String → Option String) → String → Option String
store directory name c disk path = if path == directory ++ "/" ++ name then some c else disk path

store-path :
    (directory name c : String) (disk : String → Option String)
    → store directory name c disk (directory ++ "/" ++ name) ≡ some c
store-path directory name c disk =
    let same : ((directory ++ "/" ++ name) == (directory ++ "/" ++ name)) ≡ true = eq_true refl in
    rw same refl

abbrev multer : Multer String
multer = record { store = store; store-path = store-path }

abbrev config : ApkConfig
config = record { apk_path = "files"; screenshot_url = "host" }

-- `parseInt` of the one text that the tests use
abbrev parse : String → ℕ
parse text = if text == "7" then 7 else 0

abbrev file : UploadedFile String
file = record { mimetype = "application/vnd.android.package-archive"; content = "bytes" }

abbrev empty_state : ApkState ℕ String
empty_state = record { rows = []; disk = λ path. none }

abbrev new_version : ApkRequest String
new_version = upload (form (some "7") (some "true")) (some file)

abbrev served :
    Option JwtToken
    → ApkRequest String
    → ApkState ℕ String
    → Result (ApkAnswer ℕ String) × ApkState ℕ String
served = ask table multer config parse

abbrev uploaded : ApkState ℕ String
uploaded = (served (some super_token) new_version empty_state).1

upload_run :
    served (some super_token) new_version empty_state
    ≡ (ok (message "APK uploaded successfully"), uploaded)
unfolding serve_apks intercept_file upload_apk replace_apks can_activate authorized is_authorized
    table
upload_run = refl

upload-Reads_example :
    IsSuperAdmin (some super_token)
    × ((reader : Option JwtToken)
        → Reads table multer config parse "7" "true" "bytes" uploaded reader)
upload-Reads_example =
    upload-Reads table multer config parse (some super_token) "7" "true" file
      (message "APK uploaded successfully") empty_state uploaded upload_run

upload_without_version_example :
    let (r, t) = served (some super_token) (upload (form none none) (some file)) uploaded in
    (r ≡ err type_error)
    × (t.rows ≡ [])
    × ((reader : Option JwtToken) → served reader get t ≡ (err (bad_request "No APK found!"), t))
unfolding table
upload_without_version_example =
    upload_without_version table multer config parse super_token none file uploaded [] refl refl
      refl

serve_apks-unchanged_example : (served (some root_token) new_version empty_state).1 ≡ empty_state
serve_apks-unchanged_example =
    serve_apks-unchanged table multer config parse (some root_token) new_version empty_state
      (λ e. let h : ("AndroidUser" == "SuperAdmin") ≡ true = eq_true e in cc)

nothing : AtMostOne empty_state.rows
nothing a b m = elim m [ ]

run-AtMostOne_example :
    AtMostOne
      (run table multer config parse
        ((some super_token, new_version) ∷ (none, download) ∷ (some super_token, new_version) ∷ [])
        empty_state).rows
run-AtMostOne_example =
    run-AtMostOne table multer config parse
      ((some super_token, new_version) ∷ (none, download) ∷ (some super_token, new_version) ∷ [])
      empty_state nothing
