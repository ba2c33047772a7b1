-- ===== src/Session/Store/Disk.antt =====
-- The directory of a session. serde_json and the disk are parameters.
use mathlib.Core.Option
use kiliax.Prelude.{◌≡◌, Bool, true, false, List, [], ◌∷◌, Option, some}
use kiliax.Session.State.{
  SessionMeta, SessionEventLine, SessionState, SessionSnapshot, SessionError,
}

pub data Result {ℓ} (A : Type ℓ) : Type ℓ where
  ok : A → Result A
  err : SessionError → Result A

infixl 5 ◌>>=◌
abbrev pub ◌>>=◌ {ℓ κ} : {A : Type ℓ} {B : Type κ} → Result A → (A → Result B) → Result B
ok a >>= f = f a
err e >>= f = err e

-- Texts on disk and their reading by serde_json, which reads back what it has written and writes no
-- blank line. `glue` joins two texts.
pub record Json (J : Type 0) : Type 1 where
  pub Raw : Type 0
  pub is_blank : Raw → Bool
  pub glue : Raw → Raw → Raw
  pub event_to : SessionEventLine J → Raw
  pub event_from : Raw → Option (SessionEventLine J)
  pub snapshot_to : SessionSnapshot J → Raw
  pub snapshot_from : Raw → Option (SessionSnapshot J)
  pub event_from-event_to : (l : SessionEventLine J) → event_from (event_to l) ≡ some l
  pub is_blank-event_to : (l : SessionEventLine J) → is_blank (event_to l) ≡ false
  pub snapshot_from-snapshot_to : (s : SessionSnapshot J) → snapshot_from (snapshot_to s) ≡ some s

-- How a write of the log ends: whole, with a part of the text and an error, or with an error.
pub data Append (Raw : Type 0) : Type 0 where
  written failed : Append Raw
  torn : Raw → Append Raw

module _ {J : Type 0} (json : Json J) where
  open json use {Raw, glue}

  pub record Dir : Type 0 where
    pub meta_file : Option SessionMeta
    pub snapshot_file : Option Raw
    pub log : Option (List (Raw × Bool))

  pub record Faults : Type 0 where
    pub append : Append Raw
    pub meta_fails : Bool
    pub snapshot_fails : Bool
    pub second_meta_fails : Bool

  pub record Step : Type 0 where
    pub dir : Dir
    pub state : SessionState J
    pub error : Option SessionError

  -- A text and a line feed at the end of the file; it continues a line that has no line feed.
  unfoldable pub append_raw : List (Raw × Bool) → Raw → Bool → List (Raw × Bool)
  append_raw [] raw nl = (raw, nl) ∷ []
  append_raw ((r, true) ∷ []) raw nl = (r, true) ∷ (raw, nl) ∷ []
  append_raw ((r, false) ∷ []) raw nl = (glue r raw, nl) ∷ []
  append_raw (line ∷ next ∷ lines) raw nl = line ∷ append_raw (next ∷ lines) raw nl

  unfoldable pub append_event_line : Dir → Raw → Bool → Dir
  append_event_line d raw nl = record d { log = some (append_raw (Option.get_or d.log []) raw nl) }
