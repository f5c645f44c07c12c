-- ===== src/ActivityLogs.antt =====
-- src/modules/activity_logs/services/activity_log.service.ts. `log`, which the services call, stores the
-- action and the metadata; who did it and with which account or device is not stored. `findOne`,
-- which no route calls, is left out.
use damaru_server.Prelude.{ℕ, String, true, Option, List}
use damaru_server.Prelude.Exec.{Exec, pure, ◌>>=◌, ◌>>◌}
use damaru_server.Database.{Actions, Metadata, ActivityLog, Db}
use damaru_server.Database.Repositories.{Repositories}
use damaru_server.Database.Statements.{insert_log, update_log, delete_log}
use damaru_server.Accounts.{or_else}

-- With an action, which the services always give: the body of a request is a `LogBody` of Routes.
pub record CreateActivityLogDto : Type 0 where
  pub user_id : Option String
  pub account_id : Option String
  pub device_id : Option String
  pub action : Actions
  pub metadata : Metadata

unfoldable pub log : Repositories → CreateActivityLogDto → Exec Db String
log R dto = do
  id ← insert_log R (λ id. record { id = id; action = dto.action; metadata = dto.metadata })
  pure "Activity logged successfully"

-- `Partial<ActivityLog>`, the body of an update, which is written whole: a column that is absent stays.
pub record LogPatch : Type 0 where
  pub id : Option String
  pub action : Option Actions
  pub metadata : Option Metadata

unfoldable pub write_log : LogPatch → ActivityLog → ActivityLog
write_log p l = record l {
  id = or_else p.id l.id;
  action = or_else p.action l.action;
  metadata = or_else p.metadata l.metadata;
}

module _ (R : Repositories) where
  unfoldable pub update : String → LogPatch → Exec Db ℕ
  update id p = update_log R id (write_log p)

  unfoldable pub find_all : Db → List ActivityLog
  find_all = R.activity_log.find (λ l. true)

  unfoldable pub remove : String → Exec Db String
  remove id = do delete_log R id; pure "Activity log deleted"
