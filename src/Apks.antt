-- ===== src/Apks.antt =====
-- src/modules/apks: the service (services/apk.service.ts), its controller (controllers/apk.controller.ts)
-- and the entity. The table and the directory of the files are a state of their own: no other part of the
-- server reads or writes them. Parameters: the numbers that `parseInt` gives, with the database's order
-- of them, the repository, and multer, which stores an uploaded file. The form's fields are texts, and
-- nothing validates them: one that is absent is `undefined`.
pub mod Laws
pub mod Uploads
use Prim.Native.String.{◌++◌}
use damaru_server.Prelude.{
  ℕ, String, ◌≡◌, Bool, true, false, Option, none, some, List, [], ◌∷◌, ◌==◌, if◌then◌else◌, Memᴰ,
  ◌⊎◌,
}
use damaru_server.Prelude.Exec.{
  Exec, Result, ok, err, bad_request, unauthorized, http_exception, query_failed, pure, throw, gets,
  non_null, ◌>>=◌, ◌>>◌,
}
use damaru_server.Token.{JwtToken}
use damaru_server.Guards.{http, can_activate, super_admin_guard}

pub record Apk (Number : Type 0) : Type 0 where
  pub version : Number
  pub force : Bool
  pub link : String

-- `Repository<Apk>`: `find({ order: { version: 'DESC' }, take })`, `delete({})` and `insert`.
pub record ApkRepository {Number : Type 0} (at_most : Number → Number → Bool) : Type 0 where
  pub find_latest : ℕ → List (Apk Number) → List (Apk Number)
  pub delete_all : List (Apk Number) → Option (List (Apk Number))
  pub insert : Apk Number → List (Apk Number) → Option (List (Apk Number))
  pub find-mem :
      (rows rest : List (Apk Number)) (a : Apk Number) → find_latest 1 rows ≡ a ∷ rest → Memᴰ a rows
  pub find-latest :
      (rows rest : List (Apk Number)) (a b : Apk Number)
      → find_latest 1 rows ≡ a ∷ rest
      → Memᴰ b rows
      → at_most b.version a.version ≡ true
  pub find-nil :
      (rows : List (Apk Number)) (a : Apk Number) → find_latest 1 rows ≡ [] → Memᴰ a rows → ⊥
  pub delete-nil : (rows t : List (Apk Number)) → delete_all rows ≡ some t → t ≡ []
  pub insert-mem : (a : Apk Number) (rows t : List (Apk Number)) → insert a rows ≡ some t → Memᴰ a t
  pub mem-insert :
      (a b : Apk Number) (rows t : List (Apk Number))
      → insert a rows ≡ some t
      → Memᴰ b t
      → (b ≡ a) ⊎ Memᴰ b rows

pub record UploadedFile (Content : Type 0) : Type 0 where
  pub mimetype : String
  pub content : Content

-- Multer's disk storage puts a file under a directory and a name.
pub record Multer (Content : Type 0) : Type 0 where
  pub store : String → String → Content → (String → Option Content) → String → Option Content
  pub store-path :
      (directory name : String) (c : Content) (disk : String → Option Content)
      → store directory name c disk (directory ++ "/" ++ name) ≡ some c

-- APK_PATH and SCREENSHOT_URL
pub record ApkConfig : Type 0 where
  pub apk_path : String
  pub screenshot_url : String

pub record ApkDto : Type 0 where
  pub version : Option String
  pub force : Option String

pub record ApkState (Number Content : Type 0) : Type 0 where
  pub rows : List (Apk Number)
  pub disk : String → Option Content

-- What the routes answer: a message, the details of the latest apk, or a file that is sent.
pub data ApkAnswer (Number Content : Type 0) : Type 0 where
  message : String → ApkAnswer Number Content
  details : Apk Number → ApkAnswer Number Content
  sent_file : (link : String) → Option Content → ApkAnswer Number Content

pub data ApkRequest (Content : Type 0) : Type 0 where
  upload : ApkDto → Option (UploadedFile Content) → ApkRequest Content
  get download : ApkRequest Content

abbrev pub first {ℓ} : {A : Type ℓ} → List A → Option A
first [] = none
first (a ∷ rest) = some a

abbrev pub file_name : String
file_name = "damaru.apk"

-- `@UseGuards(JwtAuthGuard, SuperAdmin)` of the upload; the other two routes are open.
abbrev pub admitted : Option JwtToken → Result Bool
admitted none = err (unauthorized "Unauthorized")
admitted (some user) = can_activate super_admin_guard http (some user)

module _ {Number Content : Type 0} where
  abbrev pub saved_apks :
      Option (List (Apk Number))
      → (ApkState Number Content)
      → Result (Unit {0}) × ApkState Number Content
  saved_apks none s = (err query_failed, s)
  saved_apks (some rows) s = (ok tt, record s { rows = rows })

  module _ {at_most : Number → Number → Bool} (R : ApkRepository at_most) (m : Multer Content)
      (config : ApkConfig) (parse_int : String → Number) where
    abbrev pub get_apk_path : String
    get_apk_path = config.apk_path

    abbrev pub get_apk_download_link : String
    get_apk_download_link = config.screenshot_url ++ "/apks/download"

    abbrev pub with_path : Apk Number → Apk Number
    with_path a = record a { link = get_apk_path ++ "/" ++ a.link }

    abbrev pub latest : Option (Apk Number) → Exec (ApkState Number Content) (Apk Number)
    latest none = throw (bad_request "No APK found!")
    latest (some a) = pure (with_path a)

    unfoldable pub get_latest_apk_path : Exec (ApkState Number Content) (Apk Number)
    get_latest_apk_path = do
      version ← gets (λ (s : ApkState Number Content). R.find_latest 1 s.rows)
      latest (first version)

    -- The object of the insertion is made after the deletion: an absent field throws there.
    unfoldable pub replace_apks : ApkDto → Exec (ApkState Number Content) (Unit {0})
    replace_apks dto = do
      (λ (s : ApkState Number Content). saved_apks (R.delete_all s.rows) s)
      version ← non_null dto.version
      force ← non_null dto.force
      λ (s : ApkState Number Content).
          saved_apks
            (R.insert
              (record { version = parse_int version; force = force == "true"; link = file_name })
              s.rows)
            s

    unfoldable pub upload_apk :
        ApkDto
        → Option (UploadedFile Content)
        → Exec (ApkState Number Content) (ApkAnswer Number Content)
    upload_apk dto none = throw (bad_request "No file uploaded!")
    upload_apk dto (some file) = do replace_apks dto; pure (message "APK uploaded successfully")

    -- The interceptor of the route, with the filter and the storage of src/modules/apks/apk.module.ts
    unfoldable pub intercept_file :
        Option (UploadedFile Content) → Exec (ApkState Number Content) (Unit {0})
    intercept_file none s = (ok tt, s)
    intercept_file (some file) s =
        if file.mimetype == "application/vnd.android.package-archive"
        then (ok tt, record s { disk = m.store config.apk_path file_name file.content s.disk })
        else (err (bad_request "Only apk files are allowed!"), s)

    abbrev guarded_upload :
        Result Bool
        → Exec (ApkState Number Content) (ApkAnswer Number Content)
        → Exec (ApkState Number Content) (ApkAnswer Number Content)
    guarded_upload (ok true) run = run
    guarded_upload (ok false) run = throw (http_exception "Forbidden resource" 403)
    guarded_upload (err e) run = throw e

    unfoldable pub serve_apks :
        Option JwtToken
        → ApkRequest Content
        → Exec (ApkState Number Content) (ApkAnswer Number Content)
    serve_apks token (upload dto file) =
        guarded_upload (admitted token) (do intercept_file file; upload_apk dto file)
    serve_apks token get = do
      apk ← get_latest_apk_path
      pure (details (record apk { link = get_apk_download_link }))
    serve_apks token download = do
      apk ← get_latest_apk_path
      s ← gets (λ (s : ApkState Number Content). s)
      pure (sent_file apk.link (s.disk apk.link))
