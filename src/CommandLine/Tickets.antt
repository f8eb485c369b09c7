-- ===== src/CommandLine/Tickets.antt =====
-- The commands `ticket create` and `ticket submit` of crates/mirror-pool-cli/src/main.rs, one after
-- the other.
use mirror_pool.Prelude.{ℕ, ◌<◌, ◌≡◌, true, none, some, Bytes, ok, refl, sym, ◌∙◌, map_err-ok}
use mirror_pool.Store.Defs.{Json}
use mirror_pool.Crypto.Defs.{JoinTicket, verify, create}
use mirror_pool.Crypto.Tickets.{Signs, create-verify}
use mirror_pool.Client.Defs.{create_join_ticket}
use mirror_pool.CommandLine.Files.{FileSystem, lift, read, read_json}
use mirror_pool.CommandLine.Commands.{
  World, LocalTicket, TicketBindingFile, ticket_create, ticket_submit,
}
use mirror_pool.CommandLine.Steps.{>>=-goes, lift-done, read-some, reject-ok, write_created-Wrote}

-- What is written out reads back.
abbrev pub Reads : {T : Type 0} → Json T → Type 0
Reads {T} json = (v : T) (text : Bytes) → json.to_string v ≡ some text → json.from_str text ≡ some v

-- The text of a local ticket is not that of a ticket.
abbrev pub IsApart : World → Type 0
IsApart w =
    (l : LocalTicket) (text : Bytes)
    → w.local_tickets.to_string l ≡ some text
    → w.tickets.from_str text ≡ none

module _ (w : World) where
  ticket_submit-local :
      (reads : Reads w.local_tickets) (apart : IsApart w) (l : LocalTicket) (path : Bytes)
      (fs : FileSystem) {owner_only : _} {text : Bytes}
      → w.local_tickets.to_string l ≡ some text
      → fs.files path ≡ some (record { owner_only = owner_only; contents = text })
      → fs.readable path ≡ true
      → ticket_submit w path fs ≡ (fs, ok l.ticket)
  unfolding ticket_submit lift
  ticket_submit-local reads apart l path fs {owner_only} {text} e at readable =
      >>=-goes (read path) (read-some fs path readable at) _
      ∙ rw (apart l text e, reads l text e) refl

  -- A ticket that `ticket create` wrote is in a file that its owner alone may read; `ticket submit`
  -- reads it back to post it, and it passes `JoinTicket::verify` for the binding it was made for at a
  -- slot before it expires.
  -- It is assumed that local tickets read back, not as tickets, and that Ed25519 signatures verify.
  pub ticket_create-ticket_submit :
      (signs : Signs w.ed25519) (reads : Reads w.local_tickets) (apart : IsApart w)
      (binding output : Bytes) (fs : FileSystem) (bound : TicketBindingFile) (slot : ℕ)
      {fs' : FileSystem}
      → read_json w.bindings binding fs ≡ (fs, ok bound)
      → fs.readable output ≡ true
      → slot < bound.expiry_slot
      → ticket_create w binding output fs ≡ (fs', ok tt)
      → (t : JoinTicket) × (text : Bytes) × (fs'.files output
          ≡ some (record { owner_only = true; contents = text }))
        × (ticket_submit w output fs' ≡ (fs', ok t))
        × (verify w.ticket_json w.ed25519 t slot bound.binding ≡ ok tt)
  unfolding ticket_create create_join_ticket
  ticket_create-ticket_submit signs reads apart binding output fs bound slot {fs'} known readable
        timely h =
      let ((t, nonce), made, wrote) =
        lift-done _ _ (sym (>>=-goes (read_json w.bindings binding) known _) ∙ h) in
      let created =
        map_err-ok
          (create w.ticket_json w.ed25519 w.blake3 w.nonce w.secret bound.binding.pool_id
            bound.binding.round_id bound.binding.action_template_hash bound.expiry_slot)
          _ (reject-ok _ made) in
      let (text, e, file) = write_created-Wrote w.local_tickets true output _ fs wrote in
      let (verified, _) =
        create-verify w.ticket_json w.ed25519 signs w.blake3 w.nonce w.secret bound.binding.pool_id
          bound.binding.round_id bound.binding.action_template_hash bound.expiry_slot slot created
          timely in
      (
        t,
        text,
        file.written,
        ticket_submit-local reads apart _ output fs' e file.written (file.readable ∙ readable),
        verified,
      )
