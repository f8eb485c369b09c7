-- ===== src/Store/Scheduling.antt =====
-- `Store::schedule_release` of crates/mirror-pool-store.
use mirror_pool.Prelude.{
  ℕ, ◌<◌, ◌≡◌, ◌&&◌, some, ok, err, arith, sym, ◌∙◌, ap, i64_mod, inl, inr, if◌then◌else◌, ◌==◌,
  >>=-eq-ok, Option-cases,
}
use mirror_pool.Core.Defs.{Digest32}
use mirror_pool.Store.Tables.{
  conflicting_schedule, ScheduleRow, Database, as_i64, find_schedule, insert_schedule,
}
use mirror_pool.Store.Defs.{schedule_release}
use mirror_pool.Store.Lookups.{is_at_refl}
use mirror_pool.Store.Loop.{as_i64-ok}

find_schedule-insert :
    (row : ScheduleRow) (db : Database) {db' : Database}
    → insert_schedule row db ≡ ok db'
    → find_schedule db'.release_schedules row.pool_id row.round_id ≡ some row
unfolding insert_schedule
find_schedule-insert row db h = ground (arith, is_at_refl row.pool_id row.round_id)

schedule-kept :
    (db : Database) (row : ScheduleRow) (release end_slot : ℕ) {db' : Database}
    → (if (row.release_slot == release) && (row.window_end_slot == end_slot)
        then ok db
        else err conflicting_schedule)
      ≡ ok db'
    → (db ≡ db') × (row.release_slot ≡ release) × (row.window_end_slot ≡ end_slot)
schedule-kept db row release end_slot h = ground arith

schedule_release-found :
    (db : Database) (pool : Digest32) (round_id release end_slot : ℕ) {db' : Database}
    → schedule_release db pool round_id release end_slot ≡ ok db'
    → (round_id < i64_mod)
      × (row : ScheduleRow) × (find_schedule db'.release_schedules pool round_id ≡ some row)
      × (row.release_slot ≡ release)
      × (row.window_end_slot ≡ end_slot)
unfolding schedule_release
schedule_release-found db pool round_id release end_slot {db'} h =
    let (id, in_range, h₁) = >>=-eq-ok (as_i64 round_id) _ h in
    let (fits, same) = as_i64-ok round_id in_range in
    elim (Option-cases (find_schedule db.release_schedules pool id)) [
      | inl nothing ↦
          let h₂ = rw nothing at h₁ in
          let (start, in_start, h₃) = >>=-eq-ok (as_i64 release) _ h₂ in
          let (last, in_last, h₄) = >>=-eq-ok (as_i64 end_slot) _ h₃ in
          let (_, same_start) = as_i64-ok release in_start in
          let (_, same_last) = as_i64-ok end_slot in_last in
          let found = find_schedule-insert _ db h₄ in
          (
            fits,
            _,
            ap (λ (n : ℕ). find_schedule db'.release_schedules pool n) (sym same) ∙ found,
            same_start,
            same_last,
          )
      | inr (row, e) ↦
          let (kept, start, last) = schedule-kept db row release end_slot (rw e at h₁) in
          (
            fits,
            row,
            ap (λ (d : Database). find_schedule d.release_schedules pool round_id) (sym kept)
                ∙ ap (λ (n : ℕ). find_schedule db.release_schedules pool n) (sym same)
                ∙ e,
            start,
            last,
          )
    ]

-- A release is scheduled once: after a schedule that succeeded, the same slots can be scheduled again
-- without effect, and all others are refused as conflicting.
pub schedule_release_once :
    (db : Database) (pool : Digest32) (round_id release end_slot release' end' : ℕ) {db' : Database}
    → schedule_release db pool round_id release end_slot ≡ ok db'
    → schedule_release db' pool round_id release' end'
      ≡ (if (release == release') && (end_slot == end') then ok db' else err conflicting_schedule)
schedule_release_once db pool round_id release end_slot release' end' {db'} h =
    let (fits, row, found, start, last) =
      schedule_release-found db pool round_id release end_slot h in
    again db' pool round_id release end_slot release' end' row fits found start last
  where
    again :
        (db' : Database) (pool : Digest32) (round_id release end_slot release' end' : ℕ)
        (row : ScheduleRow)
        → round_id < i64_mod
        → find_schedule db'.release_schedules pool round_id ≡ some row
        → row.release_slot ≡ release
        → row.window_end_slot ≡ end_slot
        → schedule_release db' pool round_id release' end' ≡ (
            if (release == release') && (end_slot == end')
            then ok db'
            else err conflicting_schedule)
    again db' pool round_id release end_slot release' end' row fits found start last =
        unfold schedule_release as_i64 in ground arith
