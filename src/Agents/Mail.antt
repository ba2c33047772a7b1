-- ===== src/Agents/Mail.antt =====
-- What the mailboxes deliver.
use kiliax.Prelude.{
  ◌≡◌, refl, ap, ◌∙◌, sym, Bool, true, false, List, [], ◌∷◌, ◌++◌, is_empty, map, Option-cases, inl,
  inr, retain,
}
use mathlib.Core.Option
use kiliax.Text.{Text, codes, trim}
use kiliax.Text.Table.{lookup, lookup-insert-same, lookup-remove-same}
use kiliax.Result.{ok, unless-ok}
use kiliax.Agents.Paths.{AgentError}
use kiliax.Agents.State.{MultiAgentIdentity, MultiAgentState, MailboxItem, MailboxUpdate}
use kiliax.Agents.Mailbox.{
  take_messages, item_update, queue_message, drain_messages_for_run, drain_mailbox, bump_mailbox,
}

abbrev pub is_message : MailboxItem → Bool
is_message (MailboxItem.message u) = true
is_message (MailboxItem.update u) = false

abbrev pub is_update : MailboxItem → Bool
is_update (MailboxItem.message u) = false
is_update (MailboxItem.update u) = true

take_messages-retain :
    (items : List MailboxItem)
    → (map item_update (retain is_message items) ≡ (take_messages items).0)
      × (retain is_update items ≡ (take_messages items).1)
unfolding take_messages
take_messages-retain [] = (refl, refl)
take_messages-retain (MailboxItem.message u ∷ items) =
    let (a, b) = take_messages-retain items in (ap (λ us. u ∷ us) a, b)
take_messages-retain (MailboxItem.update u ∷ items) =
    let (a, b) = take_messages-retain items in (a, ap (λ us. MailboxItem.update u ∷ us) b)

take_messages-push :
    (items : List MailboxItem) (u : MailboxUpdate)
    → (take_messages (items ++ (MailboxItem.message u ∷ []))).0
      ≡ (take_messages items).0 ++ (u ∷ [])
unfolding take_messages
take_messages-push [] u = refl
take_messages-push (MailboxItem.message v ∷ items) u =
    ap (λ us. v ∷ us) (take_messages-push items u)
take_messages-push (MailboxItem.update v ∷ items) u = take_messages-push items u

abbrev pub sent : MultiAgentIdentity → MultiAgentIdentity → Text → MailboxUpdate
sent from to text = record {
  from = from.agent_path;
  to = to.agent_path;
  session_id = from.session_id;
  status = codes "message";
  message = text;
}

module _ {L : Type 0} where
  -- What stands in a mailbox.
  abbrev pub items_of : Text → MultiAgentState L → List MailboxItem
  items_of id s = Option.get_or (lookup id s.mailbox) []

  drain-out :
      (id : Text) (s : MultiAgentState L)
      → (drain_messages_for_run id s).0 ≡ (take_messages (items_of id s)).0
  unfolding drain_messages_for_run take_messages
  drain-out id s = elim (Option-cases (lookup id s.mailbox)) [
    | inl n ↦ rw (n, drain_messages_for_run) refl
    | inr (q, n) ↦ rw (n, drain_messages_for_run) refl
  ]

  pub drain-items :
      (id : Text) (s : MultiAgentState L)
      → items_of id (drain_messages_for_run id s).1 ≡ (take_messages (items_of id s)).1
  unfolding drain_messages_for_run take_messages
  drain-items id s = elim (Option-cases (lookup id s.mailbox)) [
    | inl n ↦ rw (n, drain_messages_for_run) (rw n refl)
    | inr (q, n) ↦
        rw (n, drain_messages_for_run)
          (ap (λ o. Option.get_or o []) (lookup-insert-same id (take_messages q).1 s.mailbox))
  ]

  -- A run takes the messages in their order, and the wait after it gets the other updates in theirs; then
  -- the mailbox is empty.
  pub drain_messages_for_run-rest :
      (id : Text) (s : MultiAgentState L)
      → ((drain_messages_for_run id s).0 ≡ map item_update (retain is_message (items_of id s)))
        × ((drain_mailbox id (drain_messages_for_run id s).1).0
            ≡ map item_update (retain is_update (items_of id s)))
        × (items_of id (drain_mailbox id (drain_messages_for_run id s).1).1 ≡ [])
  unfolding drain_mailbox
  drain_messages_for_run-rest id s =
      let (a, b) = take_messages-retain (items_of id s) in
      (
        drain-out id s ∙ sym a,
        ap (map item_update) (drain-items id s ∙ sym b),
        ap (λ o. Option.get_or o [])
            (lookup-remove-same id (drain_messages_for_run id s).1.mailbox),
      )

  queue_message-items :
      (from to : MultiAgentIdentity) (text : Text) (s t : MultiAgentState L)
      → queue_message from to text s ≡ ok t
      → items_of to.session_id t
        ≡ items_of to.session_id s ++ (MailboxItem.message (sent from to text) ∷ [])
  unfolding queue_message bump_mailbox
  queue_message-items from to text s t h =
      let (e, v) = unless-ok (is_empty (trim text)) AgentError.empty_message _ t h in
      ap (items_of to.session_id) (sym e)
      ∙ ap (λ o. Option.get_or o []) (lookup-insert-same to.session_id _ s.mailbox)

  -- A message that is queued comes last among those that the next run of its session takes, after all
  -- those that stood there before.
  pub queue_message-drain :
      (from to : MultiAgentIdentity) (text : Text) (s t : MultiAgentState L)
      → queue_message from to text s ≡ ok t
      → (drain_messages_for_run to.session_id t).0
        ≡ (drain_messages_for_run to.session_id s).0 ++ (sent from to text ∷ [])
  queue_message-drain from to text s t h =
      drain-out to.session_id t
      ∙ ap (λ q. (take_messages q).0) (queue_message-items from to text s t h)
      ∙ take_messages-push (items_of to.session_id s) (sent from to text)
      ∙ ap (λ us. us ++ (sent from to text ∷ [])) (sym (drain-out to.session_id s))
