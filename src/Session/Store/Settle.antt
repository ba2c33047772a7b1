-- ===== src/Session/Store/Settle.antt =====
-- What a replay of the log can restore: all of a state but the moment of the goal's last update,
-- which is read from the clock, and the place of the last snapshot.
use kiliax.Prelude.{
  ℕ, zero, ◌≡◌, refl, ap, sym, ◌∙◌, false, [], ◌∷◌, ◌++◌, Option, none, some, length,
}
use kiliax.Text.{Text}
use kiliax.Protocol.{Message}
use kiliax.Session.State.{
  SessionMeta, SessionGoal, SessionEvent, SessionState, session_schema_version,
}
use kiliax.Session.Apply.{
  apply_event, dispatch, touch, push_message, edit_message, truncate_after, edit_at, truncate_at,
  position, first_title, edited_title, with_title, add_usage,
}
use kiliax.Session.Title.{title_of}

abbrev pub settle_goal : Option SessionGoal → Option SessionGoal
settle_goal none = none
settle_goal (some g) = some (record g { updated_at = [] })

abbrev pub settle_meta : SessionMeta → SessionMeta
settle_meta m = record m {
  goal = settle_goal m.goal;
  last_snapshot_seq = 0;
  schema_version = session_schema_version;
}

abbrev pub settle : {J : Type 0} → SessionState J → SessionState J
settle s = record s { meta = settle_meta s.meta }

settle-with_title :
    (m : SessionMeta) (t : Option Text)
    → settle_meta (with_title m t) ≡ with_title (settle_meta m) t
unfolding with_title
settle-with_title m none = refl
settle-with_title m (some t) = refl

settle-add_usage :
    (now : Text) (time tokens : ℕ) (g : Option SessionGoal)
    → settle_goal (add_usage now time tokens g)
      ≡ settle_goal (add_usage [] time tokens (settle_goal g))
unfolding add_usage
settle-add_usage now time tokens none = refl
settle-add_usage now time tokens (some g) = refl

settle_goal_idem : (g : Option SessionGoal) → settle_goal (settle_goal g) ≡ settle_goal g
settle_goal_idem none = refl
settle_goal_idem (some g) = refl

pub settle_idem : {J : Type 0} (s : SessionState J) → settle (settle s) ≡ settle s
settle_idem s =
    ap (λ g. record s { meta = record (settle_meta s.meta) { goal = g } })
      (settle_goal_idem s.meta.goal)

module _ {J : Type 0} where
  settle-first_title :
      (o : Option Text) (m : Message J) (meta : SessionMeta)
      → settle_meta (first_title o m meta) ≡ first_title o m (settle_meta meta)
  unfolding first_title
  settle-first_title none (Message.user content false) meta =
      settle-with_title meta (title_of content)
  settle-first_title _ _ meta = refl

  settle-edited_title :
      (i : ℕ) (m : Message J) (meta : SessionMeta)
      → settle_meta (edited_title i m meta) ≡ edited_title i m (settle_meta meta)
  unfolding edited_title
  settle-edited_title zero (Message.user content false) meta =
      settle-with_title meta (title_of content)
  settle-edited_title _ _ meta = refl

  settle-edit_at :
      (s : SessionState J) (o : Option ℕ) (m : Message J)
      → settle (edit_at s o m) ≡ edit_at (settle s) o m
  unfolding edit_at
  settle-edit_at s none m = refl
  settle-edit_at s (some i) m =
      ap (λ meta. record s { messages = (edit_at s (some i) m).messages; meta = meta })
        (settle-edited_title i m s.meta)

  settle-truncate_at :
      (s : SessionState J) (id : ℕ) (o : Option ℕ)
      → settle (truncate_at s id o) ≡ truncate_at (settle s) id o
  unfolding truncate_at
  settle-truncate_at s id none = refl
  settle-truncate_at s id (some i) = refl

  settle-push_message :
      (s : SessionState J) (m : Message J) (seq : ℕ)
      → settle (push_message s m seq) ≡ push_message (settle s) m seq
  unfolding push_message
  settle-push_message s m seq =
      ap
        (λ meta. record (push_message s m seq) {
          meta = record meta { message_count = length (s.messages ++ m ∷ []) };
        })
        (settle-first_title s.meta.title m s.meta)

  -- An operation that commutes with `settle` does the same from a settled state.
  from_settled :
      (f : SessionState J → SessionState J) (s : SessionState J)
      → ((t : SessionState J) → settle (f t) ≡ f (settle t))
      → settle (f s) ≡ settle (f (settle s))
  from_settled f s h = h s ∙ sym (h (settle s) ∙ ap f (settle_idem s))

  -- What an event does to a settled state does not depend on the clock.
  pub settle-apply_event :
      (now : Text) (s : SessionState J) (e : SessionEvent J) (ts seq : ℕ)
      → settle (apply_event now s e ts seq) ≡ settle (apply_event [] (settle s) e ts seq)
  unfolding apply_event dispatch touch push_message edit_message truncate_after
  settle-apply_event now s (SessionEvent.message m) ts seq =
      from_settled (λ t. push_message t m seq) (touch s ts seq) (λ t. settle-push_message t m seq)
  settle-apply_event now s (SessionEvent.message_edit id m) ts seq =
      from_settled (λ t. edit_at t (position id s.message_ids) m) (touch s ts seq)
        (λ t. settle-edit_at t (position id s.message_ids) m)
  settle-apply_event now s (SessionEvent.truncate_after id) ts seq =
      from_settled (λ t. truncate_at t id (position id s.message_ids)) (touch s ts seq)
        (λ t. settle-truncate_at t id (position id s.message_ids))
  settle-apply_event now s (SessionEvent.goal_usage time tokens) ts seq =
      ap
        (λ g. record (settle (touch s ts seq)) {
          meta = record (settle_meta (touch s ts seq).meta) { goal = g };
        })
        (settle-add_usage now time tokens s.meta.goal)
  settle-apply_event now s (SessionEvent.goal_set g) ts seq = refl
  settle-apply_event now s (SessionEvent.goal_completed g) ts seq = refl
  settle-apply_event now s SessionEvent.goal_cleared ts seq = refl
  settle-apply_event now s (SessionEvent.context_checkpoint c) ts seq =
      from_settled (λ t. record t { checkpoint = some c }) (touch s ts seq) (λ t. refl)
  settle-apply_event now s (SessionEvent.finish reason) ts seq =
      from_settled (λ t. record t { meta = record t.meta { last_finish_reason = reason } })
        (touch s ts seq) (λ t. refl)
  settle-apply_event now s (SessionEvent.error e) ts seq =
      from_settled (λ t. record t { meta = record t.meta { last_error = some e } }) (touch s ts seq)
        (λ t. refl)
