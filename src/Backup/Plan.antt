-- ===== src/Backup/Plan.antt =====
-- usr/lib/smd/lib/modules/backup.py: `Plan`, `Plans` and the entries of the state file. A constructor
-- gives back the dict that it was given, with what it puts in. What the system answers is in `Files`.
mod Parse
mod Counter
mod Config
pub use Parse.{Plan, Keep, always, never, newest, Files}
unfoldable pub use Parse.{plan_id, new_plan, plan_check, is_match, upload_of, uuid_of, keep_of}
pub use Counter.{counted, next_count, put_count, new_entry}
unfoldable pub use Counter.{count_of, incremental, entry_count}
pub use Config.{Plans}
unfoldable pub use Config.{read_plans, common_upload, common_key, new_plans}
