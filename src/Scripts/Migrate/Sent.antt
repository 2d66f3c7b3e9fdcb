-- ===== src/Scripts/Migrate/Sent.antt =====
-- What a run of files of scripts/migrate.py sends to the server, as a relation between the server's
-- states before and after, which no function of the runner defines.
use corebank_api.Scripts.Migrate.{
  statements, execute_all, recorded, record_version, apply, Store, File, Server,
}
use corebank_api.Errors.{err, ok, Result, Exception}
use corebank_api.Database.Engine.{Engine, same, server_error, dup_entry}
use corebank_api.Database.Rows.{exists}
use corebank_api.Prelude.{
  ℕ, List, [], ◌∷◌, ◌++◌, ◌≡◌, ◌⊎◌, inl, inr, refl, sym, ap, subst, true, arith, Bool-cases,
}

-- The statements of some files, file by file.
abbrev pub all_statements : List File → List (List ℕ)
all_statements [] = []
all_statements (f ∷ files) = statements f.text ++ all_statements files

err_parts :
    {A B : Type 0} {y x : Exception} {s t : B}
    → ◌≡◌ {A = Result A × B} (err y, s) (err x, t)
    → (y ≡ x) × (s ≡ t)
err_parts h = (ground (arith, h), ap (λ r. r.1) h)

module _ {S : Type 0} (server : Server S) where
  -- These statements were all sent to the server, in this order, and none failed.
  pub data AreSent : List (List ℕ) → S → S → Type 0 where
    nothing : {s : S} → AreSent [] s s
    sent :
        {stmt : List ℕ} {rest : List (List ℕ)} {s mid last : S}
        → server.execute stmt s ≡ (ok tt, mid)
        → AreSent rest mid last
        → AreSent (stmt ∷ rest) s last

  -- Some of these statements were sent, and the next one failed.
  pub data Breaks (x : Exception) : List (List ℕ) → S → S → Type 0 where
    here :
        {stmt : List ℕ} {rest : List (List ℕ)} {s last : S}
        → server.execute stmt s ≡ (err x, last)
        → Breaks x (stmt ∷ rest) s last
    beyond :
        {stmt : List ℕ} {rest : List (List ℕ)} {s mid last : S}
        → server.execute stmt s ≡ (ok tt, mid)
        → Breaks x rest mid last
        → Breaks x (stmt ∷ rest) s last

  pub sent_append :
      (xs ys : List (List ℕ)) (s mid last : S)
      → AreSent xs s mid
      → AreSent ys mid last
      → AreSent (xs ++ ys) s last
  sent_append [] ys s mid last nothing more = more
  sent_append (x ∷ xs) ys s mid last (sent {mid = t} step rest) more =
      sent step (sent_append xs ys t mid last rest more)

  abbrev answered : Result (Unit {0}) × S → List (List ℕ) → Result (Unit {0}) × S
  answered r rest = elim r.0 [ ok _ ↦ execute_all server rest r.1 | err x ↦ (err x, r.1) ]

  execute_all_ok :
      (stmts : List (List ℕ)) (s last : S)
      → execute_all server stmts s ≡ (ok tt, last)
      → AreSent stmts s last
  unfolding execute_all
  execute_all_ok [] s last h =
      subst (AreSent [] s) (ap (λ (r : Result (Unit {0}) × S). r.1) h) nothing
  execute_all_ok (stmt ∷ rest) s last h =
      go (server.execute stmt s) refl h (λ mid k. execute_all_ok rest mid last k)
    where
      go :
          (r : Result (Unit {0}) × S)
          → server.execute stmt s ≡ r
          → answered r rest ≡ (ok tt, last)
          → ((mid : S) → execute_all server rest mid ≡ (ok tt, last) → AreSent rest mid last)
          → AreSent (stmt ∷ rest) s last
      go (ok u, mid) step k later = sent step (later mid k)
      go (err x, mid) step k later = absurd (ground arith)

  execute_all_err :
      (stmts : List (List ℕ)) (s last : S) {x : Exception}
      → execute_all server stmts s ≡ (err x, last)
      → Breaks x stmts s last
  unfolding execute_all
  execute_all_err [] s last h = absurd (ground arith)
  execute_all_err (stmt ∷ rest) s last {x = x} h =
      go (server.execute stmt s) refl h (λ mid k. execute_all_err rest mid last k)
    where
      go :
          (r : Result (Unit {0}) × S)
          → server.execute stmt s ≡ r
          → answered r rest ≡ (err x, last)
          → ((mid : S) → execute_all server rest mid ≡ (err x, last) → Breaks x rest mid last)
          → Breaks x (stmt ∷ rest) s last
      go (ok u, mid) step k later = beyond step (later mid k)
      go (err y, mid) step k later = here (
          let (e, after) = err_parts k in
          subst (λ x. server.execute stmt s ≡ (err x, last)) e
            (subst (λ t. server.execute stmt s ≡ (err y, t)) after step))

module _ ⦃e : Engine⦄ {S : Type 0} (server : Server S) where
  -- How a file ends the run: a statement of it failed, or all were sent and its stem has a row already.
  abbrev pub IsLost : File → Store S → Exception → Store S → Type 0
  IsLost f store x last =
      Breaks server x (statements f.text) store.state last.state
      ⊎ (AreSent server (statements f.text) store.state last.state
          × (exists (λ v. same v f.stem) store.versions ≡ true)
          × (x ≡ server_error dup_entry))

  pub apply-AreSent :
      (f : File) (store mid : Store S)
      → apply server f store ≡ (ok tt, mid)
      → AreSent server (statements f.text) store.state mid.state
  unfolding apply record_version
  apply-AreSent f store mid h = go (execute_all server (statements f.text) store.state) refl h
    where
      go :
          (r : Result (Unit {0}) × S)
          → execute_all server (statements f.text) store.state ≡ r
          → recorded f.stem r store ≡ (ok tt, mid)
          → AreSent server (statements f.text) store.state mid.state
      go (ok u, s) run k =
          let state : s ≡ mid.state = ground arith in
          subst (AreSent server (statements f.text) store.state) state
            (execute_all_ok server (statements f.text) store.state s run)
      go (err x, s) run k = absurd (ground arith)

  pub apply-IsLost :
      (f : File) (store last : Store S) {x : Exception}
      → apply server f store ≡ (err x, last)
      → IsLost f store x last × (last.versions ≡ store.versions)
  unfolding apply record_version
  apply-IsLost f store last {x = x} h =
      go (execute_all server (statements f.text) store.state) refl h
    where
      go :
          (r : Result (Unit {0}) × S)
          → execute_all server (statements f.text) store.state ≡ r
          → recorded f.stem r store ≡ (err x, last)
          → IsLost f store x last × (last.versions ≡ store.versions)
      go (ok u, s) run k = elim (Bool-cases (exists (λ v. same v f.stem) store.versions)) [
        | inl old ↦
            let (e, after) = err_parts (rw old at k) in
            let state : s ≡ last.state = ap (λ (t : Store S). t.state) after in
            (
              inr (
                subst (AreSent server (statements f.text) store.state) state
                    (execute_all_ok server (statements f.text) store.state s run),
                old,
                sym e,
              ),
              sym (ap (λ (t : Store S). t.versions) after),
            )
        | inr new ↦ absurd (let q = rw new at k in ground (arith, q))
      ]
      go (err y, s) run k =
          let (e, after) = err_parts k in
          (
            inl (
                subst (λ x. Breaks server x (statements f.text) store.state last.state) e
                  (subst (Breaks server y (statements f.text) store.state)
                    (ap (λ (t : Store S). t.state) after)
                    (execute_all_err server (statements f.text) store.state s run))),
            sym (ap (λ (t : Store S). t.versions) after),
          )
