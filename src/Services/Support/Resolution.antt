-- ===== src/Services/Support/Resolution.antt =====
-- Tickets of app/services/support_service.py: the resolution date goes with the status.
use corebank_api.Repositories.SupportTickets
use corebank_api.Services.Support.{resolution_date, set_status, set_status_block}
use corebank_api.Prelude.{
  [], ◌∙◌, sym, ap, subst, ◌∷◌, List, none, refl, true, some, false, String, All, ◌≡◌, Bool, Option,
  ℕ,
}
use corebank_api.Database.Schema.{
  resolved, in_progress, open_status, TicketStatus, Db, SupportTicket,
}
use corebank_api.Database.Engine.{Engine}
use corebank_api.Database.Tables.{tickets_table}
use corebank_api.Repositories.SupportTickets.{is_resolved}
use corebank_api.Database.Uow.{begin, integrity_guard, World}
use corebank_api.Database.Uow.Atomicity.{unit_of_work_keeps}
use corebank_api.Database.Statement.{some_row, has_key, Session}
use corebank_api.Errors.{not_found, app, ok}
use corebank_api.Services.Guarded.{integrity_guard_ok}
use corebank_api.Database.Statement.Effects.{execute_update_ok, bind_ok}
use corebank_api.Database.Rows.Replace.{All-replace}

abbrev pub is_some : {A : Type 0} → Option A → Bool
is_some none = false
is_some (some _) = true

-- A ticket has a resolution date exactly if it is resolved.
abbrev pub IsStamped : SupportTicket → Type 0
IsStamped t = is_some t.resolved_date ≡ is_resolved t.status

abbrev pub AllStamped : Db → Type 0
AllStamped db = All IsStamped db.tickets

IsStamped-set :
    (status : TicketStatus) (now : ℕ) (t : SupportTicket)
    → IsStamped (record t { status = status; resolved_date = resolution_date status now })
unfolding resolution_date
IsStamped-set open_status now t = refl
IsStamped-set in_progress now t = refl
IsStamped-set resolved now t = refl

module _ ⦃e : Engine⦄ where
  set_status_block_keeps :
      (id : String) (status : TicketStatus) (now : ℕ) (w : World) (o : Option SupportTicket)
      (s : Session)
      → AllStamped w.committed
      → integrity_guard (set_status_block id status now) (begin w) ≡ (ok o, s)
      → AllStamped s.db
  unfolding set_status_block SupportTickets.set_status SupportTickets.get tickets_table
  set_status_block_keeps id status now w o s h e =
      let body = integrity_guard_ok (set_status_block id status now) (begin w) e in
      let stamp = resolution_date status now in
      let (n, written, h1) =
        bind_ok (SupportTickets.set_status id status stamp (begin w)).0 _ body in
      let (_, _, h2) = bind_ok (some_row n (app not_found "Ticket not found")) _ h1 in
      let (_, left, _) =
        execute_update_ok tickets_table (has_key tickets_table id)
          (λ t. record t { status = status; resolved_date = stamp }) (begin w)
          (λ i. (written i, (SupportTickets.set_status id status stamp (begin w)).1)) in
      subst AllStamped (ap (λ (t : Session). t.db) (sym left ∙ ap (λ x. x.1) h2)) (
        All-replace (has_key tickets_table id)
          (λ t. record t { status = status; resolved_date = stamp }) IsStamped w.committed.tickets
          (everywhere w.committed.tickets) h)
    where
      everywhere :
          (ts : List SupportTicket)
          → All
              (λ t.
                has_key tickets_table id t ≡ true
                → IsStamped
                    (record t { status = status; resolved_date = resolution_date status now }))
              ts
      everywhere [] = tt
      everywhere (t ∷ ts) = (λ _. IsStamped-set status now t, everywhere ts)

  -- Whether it returns or raises, `set_status` leaves every ticket with a resolution date exactly if
  -- its status is RESOLVED, if that was so before.
  pub set_status-AllStamped :
      (id : String) (status : TicketStatus) (now : ℕ) (w : World)
      → AllStamped w.committed
      → AllStamped (set_status id status now w).1.committed
  unfolding set_status
  set_status-AllStamped id status now w h =
      unit_of_work_keeps AllStamped (integrity_guard (set_status_block id status now)) w h
        λ o s. set_status_block_keeps id status now w o s h
