-- ===== src/Session/Page.antt =====
-- `read_message_page` of crates/kiliax-core/src/session.rs, on the parsed lines of the log, newest
-- first. The decimal text of `next_before` is its number.
pub mod Correct
pub mod Window
use mathlib.Core.List.{reverse, head?}
use mathlib.Core.Option
use kiliax.Prelude.{
  ℕ, ◌^◌, ◌-◌, Bool, true, false, not, ◌&&◌, ◌||◌, List, [], ◌∷◌, ◌++◌, Option, none, some, min,
  max, length, take, ltb, leb, ◌==◌, if◌then◌else◌, is_some,
}
use kiliax.Protocol.{Message, first_text}
use kiliax.Compact.Summary.{is_summary_message}
use kiliax.Session.State.{SessionEvent, SessionEventLine, SessionMessageEntry, SessionMessagePage}

unfoldable pub is_deleted_by_later_truncate : ℕ → Option ℕ → Bool
is_deleted_by_later_truncate message_id none = false
is_deleted_by_later_truncate message_id (some cutoff) = ltb cutoff message_id

-- `min_later_truncate_cutoff.map(|current| current.min(message_id)).unwrap_or(message_id)`
unfoldable pub lower_cutoff : ℕ → Option ℕ → ℕ
lower_cutoff message_id none = message_id
lower_cutoff message_id (some current) = min current message_id

module _ {J : Type 0} where
  unfoldable pub is_display_message : Message J → Bool
  is_display_message (Message.user content hidden) = elim (first_text content) [
    | none ↦ not hidden
    | some t ↦ not hidden && not (is_summary_message t)
  ]
  is_display_message (Message.assistant c r t u p) = true
  is_display_message (Message.tool id c) = true
  is_display_message _ = false

  -- `HashMap<u64, Message>`
  unfoldable pub lookup_edit : ℕ → List (ℕ × Message J) → Option (Message J)
  lookup_edit id [] = none
  lookup_edit id ((k, m) ∷ edits) = if k == id then some m else lookup_edit id edits

  -- `latest_edits.entry(message_id).or_insert(message)`
  unfoldable pub or_insert : ℕ → Message J → List (ℕ × Message J) → List (ℕ × Message J)
  or_insert id m edits = if is_some (lookup_edit id edits) then edits else (id, m) ∷ edits

  unfoldable pub remove_edit : ℕ → List (ℕ × Message J) → List (ℕ × Message J)
  remove_edit id [] = []
  remove_edit id ((k, m) ∷ edits) =
      if k == id then remove_edit id edits else (k, m) ∷ remove_edit id edits

-- What the reader carries from line to line.
pub record Scan (J : Type 0) : Type 0 where
  pub latest_edits : List (ℕ × Message J)
  pub cutoff : Option ℕ
  pub collected : List (SessionMessageEntry J)

module _ {J : Type 0} where
  unfoldable pub collect : Scan J → ℕ → ℕ → Message J → Scan J
  collect scan seq ts message =
      if is_display_message message
      then record scan {
        latest_edits = remove_edit seq scan.latest_edits;
        collected = scan.collected ++ record { seq = seq; ts_ms = ts; message = message } ∷ [];
      }
      else record scan { latest_edits = remove_edit seq scan.latest_edits }

  unfoldable pub edited : List (ℕ × Message J) → ℕ → Message J → Message J
  edited edits seq message = Option.get_or (lookup_edit seq edits) message

  -- The part after the loop.
  unfoldable pub finish_page : ℕ → List (SessionMessageEntry J) → SessionMessagePage J
  finish_page limit collected =
      let items = reverse (take limit collected) in
      record {
        items = items;
        next_before =
            if ltb limit (length collected) then Option.map (λ e. e.seq) (head? items) else none;
      }

module _ {J : Type 0} (before limit : ℕ) where
  -- The `match line.event` of `handle_message_page_line`.
  unfoldable pub handle_event : Scan J → SessionEvent J → ℕ → ℕ → Scan J
  handle_event scan (SessionEvent.truncate_after id) seq ts = record scan {
    cutoff = some (lower_cutoff id scan.cutoff);
  }
  handle_event scan (SessionEvent.message_edit id m) seq ts =
      if ltb id before && not (is_deleted_by_later_truncate id scan.cutoff)
      then record scan { latest_edits = or_insert id m scan.latest_edits }
      else scan
  handle_event scan (SessionEvent.message m) seq ts =
      if ltb limit (length scan.collected)
      then scan
      else if leb before seq || is_deleted_by_later_truncate seq scan.cutoff
      then scan
      else collect scan seq ts (edited scan.latest_edits seq m)
  handle_event scan _ seq ts = scan

  -- The loop over the lines, newest first: it stops when there is one entry more than `limit`.
  unfoldable pub scan_lines : List (SessionEventLine J) → Scan J → Scan J
  scan_lines [] scan = scan
  scan_lines (l ∷ ls) scan =
      let rest = scan_lines ls (handle_event scan l.event l.seq l.ts_ms) in
      if ltb limit (length scan.collected) then scan else rest

-- `limit.max(1)` and `before.unwrap_or(u64::MAX)`; the lines oldest first, as they stand in the file.
unfoldable pub read_message_page :
    {J : Type 0} → List (SessionEventLine J) → ℕ → Option ℕ → SessionMessagePage J
read_message_page lines limit before =
    let n = max limit 1 in
    let b = Option.get_or before (2 ^ 64 - 1) in
    finish_page n
      (scan_lines b n (reverse lines)
        (record { latest_edits = []; cutoff = none; collected = [] })).collected
