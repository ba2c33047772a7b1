-- ===== src/Session/Tests.antt =====
-- The session store at concrete inputs. The texts on disk stand for what was written.
use mathlib.Core.Option
use kiliax.Prelude.{
  ℕ, true, false, ◌≡◌, ◌≢◌, refl, List, [], ◌∷◌, ◌++◌, Option, none, some, ◌≤◌, ◌⊎◌, ◌^◌, ◌-◌, max,
  arith,
}
use mathlib.Core.List.{reverse}
use kiliax.Text.{codes, byte_len, trim, trim_start, is_whitespace, starts_with}
use kiliax.Protocol.{Message, UserMessageContent}
use kiliax.Session.State.{
  SessionEvent, SessionEventLine, SessionState, SessionSnapshot, SessionMessageEntry,
}
use kiliax.Session.Title.{
  truncate_title, truncate_title_lem, project_prompt_from_messages, slice_to, is_char_boundary,
}
use kiliax.Session.Apply.{apply_event}
use kiliax.Session.Ids.{IsConsistent, apply_event-IsConsistent}
use kiliax.Session.Entries.{Shows, entries_after, apply_event-Shows}
use kiliax.Session.Page.{read_message_page}
use kiliax.Session.Page.Correct.{entries_of}
use kiliax.Session.Page.Window.{visible, IsPage, read_message_page-visible}
use kiliax.Session.Store.Disk.{Json, Append, Dir, Faults, ok}
use kiliax.Session.Store.Record.{record_event}
use kiliax.Session.Store.Load.{Env, load, replay, parse_session_id}
use kiliax.Session.Store.Settle.{settle}
use kiliax.Session.Store.Recover.{Durable, on_disk, replay_all, replay-on_disk}
use kiliax.Session.Store.Restart.{record_event-Durable, load-Durable}
use kiliax.Session.Store.Torn.{Jammed, load-Jammed, load-after_torn, record_after_torn-Jammed}
use kiliax.Session.Store.Create.{
  NewSession, create, create-Durable, create_complete, IsHistory, initial_state, initial_meta,
  ids_from,
}

data Written : Type 0 where
  line : SessionEventLine ℕ → Written
  whole : SessionSnapshot ℕ → Written
  garbage : Written

abbrev line_of : Written → Option (SessionEventLine ℕ)
line_of (Written.line l) = some l
line_of _ = none

abbrev snapshot_of : Written → Option (SessionSnapshot ℕ)
snapshot_of (Written.whole s) = some s
snapshot_of _ = none

abbrev disk : Json ℕ
disk = record {
  Raw = Written;
  is_blank = λ raw. false;
  glue = λ a b. Written.garbage;
  event_to = Written.line;
  event_from = line_of;
  snapshot_to = Written.whole;
  snapshot_from = snapshot_of;
  event_from-event_to = λ l. refl;
  is_blank-event_to = λ l. refl;
  snapshot_from-snapshot_to = λ s. refl;
}

abbrev question : Message ℕ
question = Message.user (UserMessageContent.text (codes "hi")) false

abbrev instructions : Message ℕ
instructions = Message.system (codes "# Project Instructions")

abbrev first_messages : List (Message ℕ)
first_messages = instructions ∷ question ∷ []

abbrev new_session : NewSession
new_session = record {
  id = codes "a1";
  now = 5;
  agent = codes "general";
  model_id = none;
  config_path = none;
  workspace_root = none;
  extra_workspace_roots = [];
  cache_key = codes "k";
}

abbrev dir : Dir disk
dir = (create disk new_session first_messages).0

abbrev state : SessionState ℕ
state = (create disk new_session first_messages).1

durable : Durable disk dir state
durable = create-Durable disk new_session first_messages

abbrev no_faults : Faults disk
no_faults = record {
  append = Append.written;
  meta_fails = false;
  snapshot_fails = false;
  second_meta_fails = false;
}

-- The line is cut in the middle.
abbrev torn_line : Faults disk
torn_line = record no_faults { append = Append.torn Written.garbage }

abbrev env : Env disk
env = record {
  clock = λ n. codes "now";
  fresh_key = codes "f";
  captured_prompt = none;
  key_write_fails = false;
  prompt_faults = no_faults;
  rebuild_faults = no_faults;
}

abbrev answer : SessionEvent ℕ
answer = SessionEvent.message (Message.assistant (some (codes "hello")) none [] none none)

create_complete_example :
    Durable disk dir state
    × (state.messages ≡ first_messages)
    × (lines : List (SessionEventLine ℕ)) × (dir.log ≡ some (on_disk disk lines))
    × IsHistory disk lines state
create_complete_example = create_complete disk new_session first_messages

record_event-Durable_example :
    Durable disk
      (record_event disk 8 no_faults 6 (codes "now") dir state answer).dir
      (record_event disk 8 no_faults 6 (codes "now") dir state answer).state
record_event-Durable_example =
    record_event-Durable disk 8 no_faults 6 (codes "now") dir state answer tt durable

valid_id : parse_session_id (codes "a1") ≡ some (codes "a1")
unfolding parse_session_id trim trim_start is_whitespace
valid_id = refl

has_key : state.meta.prompt_cache_key ≡ some (codes "k")
unfolding create initial_state initial_meta
has_key = refl

has_prompt : state.meta.project_prompt ≡ some (codes "# Project Instructions")
unfolding create initial_state initial_meta project_prompt_from_messages starts_with trim_start
    is_whitespace
has_prompt = refl

load-Durable_example :
    (t : SessionState ℕ) × (load disk env dir (codes "a1") ≡ ok (dir, t))
    × (settle t ≡ settle state)
load-Durable_example =
    load-Durable disk env dir state (codes "a1") (codes "a1") (codes "k")
      (codes "# Project Instructions") durable valid_id has_key has_prompt

consistent : IsConsistent state
consistent = durable.consistent

apply_event-IsConsistent_example : IsConsistent (apply_event (codes "now") state answer 6 3)
unfolding create initial_state initial_meta
apply_event-IsConsistent_example =
    apply_event-IsConsistent (codes "now") state answer 6 3 consistent (omega arith)

abbrev entries : List (SessionMessageEntry ℕ)
entries =
    record { seq = 1; ts_ms = 5; message = instructions }
    ∷ record { seq = 2; ts_ms = 5; message = question }
    ∷ []

shown : Shows state entries
unfolding create initial_state initial_meta ids_from
shown = record { ids = refl; messages = refl }

apply_event-Shows_example :
    Shows
      (apply_event (codes "now") state (SessionEvent.truncate_after 1) 6 3)
      (entries_after entries (SessionEvent.truncate_after 1) 6 3)
apply_event-Shows_example =
    apply_event-Shows (codes "now") state entries (SessionEvent.truncate_after 1) 6 3 consistent
      shown

abbrev log : List (SessionEventLine ℕ)
log =
    record { schema_version = 4; seq = 1; ts_ms = 5; event = SessionEvent.message instructions }
    ∷ record { schema_version = 4; seq = 2; ts_ms = 5; event = SessionEvent.message question }
    ∷ record { schema_version = 4; seq = 3; ts_ms = 6; event = answer }
    ∷ record { schema_version = 4; seq = 4; ts_ms = 7; event = SessionEvent.truncate_after 2 }
    ∷ []

replay-on_disk_example :
    replay disk env.clock 2 (on_disk disk log) state ≡ ok (replay_all env.clock 2 log state)
replay-on_disk_example =
    replay-on_disk disk env.clock 2 log state
      (omega arith, (omega arith, (omega arith, (omega arith, tt))))

read_message_page-visible_example :
    IsPage
      (max 1 1)
      (visible (Option.get_or none (2 ^ 64 - 1)) (entries_of (reverse log)))
      (read_message_page log 1 none)
unfolding entries_after
read_message_page-visible_example =
    read_message_page-visible log 1 5 none
      (omega arith, (omega arith, (omega arith, (omega arith, tt))))
      (refl, (refl, (refl, (refl, tt))))

-- The directory after a line was cut and a later event was recorded.
abbrev broken : Dir disk
broken =
    (record_event disk 8 no_faults 7 (codes "now")
      (record_event disk 8 torn_line 6 (codes "now") dir state answer).dir state answer).dir

load-after_torn_example :
    (load disk env broken (codes "a1") ≢ ok (broken, state))
    × (load disk env
          (record_event disk 8 no_faults 8 (codes "now") broken state answer).dir
          (codes "a1")
        ≢ ok (broken, state))
load-after_torn_example =
    load-after_torn disk 8 torn_line no_faults no_faults 6 7 8 (codes "now") (codes "now")
      (codes "now") dir state state state answer answer answer Written.garbage durable refl refl
      refl refl refl env (codes "a1") (broken, state)

jammed : Jammed disk broken
jammed =
    record_after_torn-Jammed disk 8 torn_line no_faults 6 7 (codes "now") (codes "now") dir state
      state answer answer Written.garbage durable refl refl refl refl

load-Jammed_example : load disk env broken (codes "a1") ≢ ok (broken, state)
load-Jammed_example = load-Jammed disk env broken (codes "a1") (broken, state) jammed

truncate_title_lem_example :
    (byte_len (truncate_title (codes " title ")) ≤ 83)
    × ((truncate_title (codes " title ") ≡ trim (codes " title "))
        ⊎ ((n : ℕ) × (n ≤ 80)
            × (is_char_boundary (trim (codes " title ")) n ≡ true)
            × (truncate_title (codes " title ")
                ≡ slice_to (trim (codes " title ")) n ++ codes "…")))
truncate_title_lem_example = truncate_title_lem (codes " title ")
