-- ===== src/Agents/Wait/Delivers.antt =====
-- What `wait_for_updates` returns, whatever other tasks do meanwhile: no change of its mailbox is missed.
use kiliax.Prelude.{
  ◌+◌, ◌-◌, ◌^◌, ◌≤◌, ◌<◌, ◌≡◌, ◌⊎◌, refl, ap, ◌∙◌, sym, subst, Bool, true, false, map,
  if◌then◌else◌, List, [], ◌∷◌, is_empty, length, ◌==◌, arith, Bool-cases, inl, inr,
}
use mathlib.Core.Option
use kiliax.Text.{Text}
use kiliax.Text.Table.{lookup-remove-same}
use kiliax.Agents.State.{MultiAgentState, MailboxItem}
use kiliax.Agents.Mailbox.{drain_mailbox, item_update}
use kiliax.Agents.Mail.{items_of}
use kiliax.Agents.Wait.{
  perform, Phase, Waiter, Event, drain_turn, sleep_turn, turn_from, turn, run_events,
  wait_for_updates,
}
use kiliax.Agents.Steps.{true-false}
use kiliax.Agents.Wait.Calm.{IsCalm, perform-IsCalm, version_eq}

-- A test that tells the two phases apart.
abbrev is_checking : Phase → Bool
is_checking Phase.checking = true
is_checking p = false

checking-sleeping : Phase.checking ≡ Phase.sleeping → ⊥
checking-sleeping h = true-false (ap is_checking h)

abbrev pub is_waiting : Phase → Bool
is_waiting (Phase.returned b updates) = false
is_waiting p = true

map-is_empty : (items : List MailboxItem) → is_empty (map item_update items) ≡ is_empty items
map-is_empty [] = refl
map-is_empty (i ∷ items) = refl

module _ {L : Type 0} where
  -- A task that has drained and not been woken has an empty mailbox.
  abbrev IsWatching : Text → Waiter L → Type 0
  IsWatching id w =
      (w.seen ≤ w.state.mailbox_version)
      × (w.state.mailbox_version ≡ w.seen → items_of id w.state ≡ [])

  abbrev IsSoundIn : Phase → Text → Waiter L → Type 0
  IsSoundIn Phase.draining id w = w.seen ≤ w.state.mailbox_version
  IsSoundIn Phase.checking id w = IsWatching id w
  IsSoundIn Phase.sleeping id w = IsWatching id w
  IsSoundIn (Phase.returned b updates) id w = Unit

  IsWatching-perform :
      (id : Text) (w : Waiter L) (t : MultiAgentState L)
      → IsCalm id w.state t
      → IsWatching id w
      → IsWatching id (record w { state = t })
  IsWatching-perform id w t (low, high, calm) (k, e) = (
    omega arith,
    λ same. elim calm [ inl m ↦ absurd (omega arith) | inr m ↦ m (e (omega arith)) ],
  )

  IsSound-perform :
      (id : Text) (p : Phase) (w : Waiter L) (t : MultiAgentState L)
      → IsCalm id w.state t
      → IsSoundIn p id w
      → IsSoundIn p id (record w { state = t })
  IsSound-perform id Phase.draining w t c h = omega (arith, c.0)
  IsSound-perform id Phase.checking w t c h = IsWatching-perform id w t c h
  IsSound-perform id Phase.sleeping w t c h = IsWatching-perform id w t c h
  IsSound-perform id (Phase.returned b updates) w t c h = tt

  drained-empty : (id : Text) (s : MultiAgentState L) → items_of id (drain_mailbox id s).1 ≡ []
  unfolding drain_mailbox
  drained-empty id s = ap (λ o. Option.get_or o []) (lookup-remove-same id s.mailbox)

  drain-IsSound :
      (id : Text) (w : Waiter L)
      → w.seen ≤ w.state.mailbox_version
      → IsSoundIn (drain_turn id w).phase id (drain_turn id w)
  unfolding drain_turn drain_mailbox
  drain-IsSound id w h = elim (Bool-cases (is_empty (drain_mailbox id w.state).0)) [
    | inl n ↦ rw (n, drain_turn) (h, λ same. drained-empty id w.state)
    | inr n ↦ rw (n, drain_turn) tt
  ]

  sleep-IsSound :
      (over : Bool) (id : Text) (w : Waiter L)
      → w.phase ≡ Phase.sleeping
      → IsWatching id w
      → IsSoundIn (sleep_turn over w).phase id (sleep_turn over w)
  unfolding sleep_turn
  sleep-IsSound over id w p h = elim (Bool-cases (w.state.mailbox_version == w.seen)) [
    | inr n ↦ rw (n, sleep_turn) (omega arith)
    | inl n ↦ elim (Bool-cases over) [
      | inl o ↦ rw (n, o, sleep_turn) tt
      | inr o ↦ rw (n, o, sleep_turn) (subst (λ q. IsSoundIn q id w) (sym p) h)
    ]
  ]

  check-IsSound :
      (over : Bool) (id : Text) (w : Waiter L)
      → IsWatching id w
      → IsSoundIn
          (if over then Phase.returned true [] else Phase.sleeping)
          id
          (record w { phase = if over then Phase.returned true [] else Phase.sleeping })
  check-IsSound true id w h = tt
  check-IsSound false id w h = h

  turn_from-IsSound :
      (p : Phase) (id : Text) (over : Bool) (w : Waiter L)
      → w.phase ≡ p
      → IsSoundIn p id w
      → IsSoundIn (turn_from p id over w).phase id (turn_from p id over w)
  turn_from-IsSound Phase.draining id over w p h = drain-IsSound id w h
  turn_from-IsSound Phase.checking id over w p h = check-IsSound over id w h
  turn_from-IsSound Phase.sleeping id over w p h = sleep-IsSound over id w p h
  turn_from-IsSound (Phase.returned b updates) id over w p h =
      subst (λ q. IsSoundIn q id w) (sym p) tt

  turn-version :
      (p : Phase) (id : Text) (over : Bool) (w : Waiter L)
      → (turn_from p id over w).state.mailbox_version ≡ w.state.mailbox_version
  unfolding drain_turn sleep_turn drain_mailbox
  turn-version Phase.draining id over w = refl
  turn-version Phase.checking id over w = refl
  turn-version Phase.sleeping id over w = ground arith
  turn-version (Phase.returned b updates) id over w = refl

  run-IsSound :
      (status : L → Text) (id : Text) (events : List (Event L)) (w : Waiter L)
      → w.state.mailbox_version + length events < 2 ^ 64 - 1
      → IsSoundIn w.phase id w
      → IsSoundIn (run_events status id events w).phase id (run_events status id events w)
  unfolding run_events turn
  run-IsSound status id [] w b h = h
  run-IsSound status id (Event.other op ∷ events) w b h =
      let c = perform-IsCalm status id op w.state (omega arith) in
      run-IsSound status id events (record w { state = perform status op w.state })
        (omega (arith, c.1)) (IsSound-perform id w.phase w (perform status op w.state) c h)
  run-IsSound status id (Event.own over ∷ events) w b h =
      run-IsSound status id events (turn id over w) (omega (arith, turn-version w.phase id over w))
        (turn_from-IsSound w.phase id over w refl h)

  -- The task has returned all that stood in its mailbox, in its order.
  abbrev pub Delivers : List MailboxItem → Waiter L → Type 0
  Delivers items w = w.phase ≡ Phase.returned false (map item_update items)

  drain-Delivers :
      (id : Text) (w : Waiter L)
      → is_empty (items_of id w.state) ≡ false
      → Delivers (items_of id w.state) (drain_turn id w)
  unfolding drain_turn drain_mailbox
  drain-Delivers id w h = rw (map-is_empty (items_of id w.state) ∙ h) refl

  woken :
      (id : Text) (w : Waiter L)
      → is_empty (items_of id w.state) ≡ false
      → IsWatching id w
      → w.state.mailbox_version == w.seen ≡ false
  woken id w h (k, e) = elim (Bool-cases (w.state.mailbox_version == w.seen)) [
    | inl n ↦
        elim (true-false
          (sym (ap is_empty (e (version_eq w.state.mailbox_version w.seen n))) ∙ h)) [ ]
    | inr n ↦ n
  ]

  sleep-Delivers :
      (id : Text) (b : Bool) (w : Waiter L)
      → is_empty (items_of id w.state) ≡ false
      → IsWatching id w
      → Delivers (items_of id w.state) (turn id b (sleep_turn b w))
  unfolding turn sleep_turn
  sleep-Delivers id b w h s =
      rw (woken id w h s)
        (drain-Delivers id (record w { seen = w.state.mailbox_version; phase = Phase.draining }) h)

  -- The task goes on three times.
  abbrev pub three_turns : Text → Bool → Waiter L → Waiter L
  three_turns id over w = turn id over (turn id over (turn id over w))

  turn-Delivers :
      (id : Text) (over : Bool) (items : List MailboxItem) (w : Waiter L)
      → Delivers items w
      → Delivers items (turn id over w)
  unfolding turn
  turn-Delivers id over items w h = ap (λ p. (turn_from p id over w).phase) h ∙ h

  three_turns-Delivers :
      (p : Phase) (id : Text) (over : Bool) (w : Waiter L)
      → w.phase ≡ p
      → is_waiting p ≡ true
      → (over ≡ false) ⊎ (p ≡ Phase.sleeping)
      → is_empty (items_of id w.state) ≡ false
      → IsSoundIn p id w
      → Delivers (items_of id w.state) (turn id over (turn id over (turn_from p id over w)))
  unfolding turn
  three_turns-Delivers Phase.draining id over w e k o h s =
      turn-Delivers id over _ _ (turn-Delivers id over _ _ (drain-Delivers id w h))
  three_turns-Delivers Phase.checking id true w e k o h s = elim o [
    | inl n ↦ elim (true-false n) [ ]
    | inr n ↦ elim (checking-sleeping n) [ ]
  ]
  three_turns-Delivers Phase.checking id false w e k o h s =
      sleep-Delivers id false (record w { phase = Phase.sleeping }) h s
  three_turns-Delivers Phase.sleeping id over w e k o h s =
      turn-Delivers id over _ _ (sleep-Delivers id over w h s)
  three_turns-Delivers (Phase.returned b updates) id over w e k o h s =
      elim (true-false (sym k)) [ ]

  -- Whatever other tasks do between the turns of a wait, fewer operations than the counter of the
  -- mailboxes has numbers left, and whenever there is something in the mailbox of a task that has not
  -- returned: it returns all of it, in its order, with `timed_out` false, within three turns before its
  -- deadline. Where it sleeps in `changed`, it returns it also if the deadline is over by then.
  pub wait_for_updates-Delivers :
      (status : L → Text) (id : Text) (s : MultiAgentState L) (events : List (Event L))
      (over : Bool) (w : Waiter L)
      → s.mailbox_version + length events < 2 ^ 64 - 1
      → run_events status id events (wait_for_updates s) ≡ w
      → is_waiting w.phase ≡ true
      → (over ≡ false) ⊎ (w.phase ≡ Phase.sleeping)
      → is_empty (items_of id w.state) ≡ false
      → Delivers (items_of id w.state) (three_turns id over w)
  unfolding wait_for_updates turn
  wait_for_updates-Delivers status id s events over w b r k o h =
      three_turns-Delivers w.phase id over w refl k o h (
        subst (λ w. IsSoundIn w.phase id w) r
          (run-IsSound status id events (wait_for_updates s) b (omega arith)))
