-- ===== src/Backup/Queue.antt =====
-- usr/lib/smd/lib/modules/backup.py: `Queue`, the plans that wait for their turn.
pub mod Table
pub mod Choice
mod Defs
pub use Defs.{
  Queue, Clock, Verdict, take, skip, raises, Removed, is_false, is_none, removed, Wanted, front,
  back, no_place, fails, obey, place_plan, removed_from,
}
unfoldable pub use Defs.{
  empty, pop, clear, is_empty, has_plan, first_match, remove_entry, remove, add, checks, verdict,
  next_from, next, wants, add_each, add_plans,
}
