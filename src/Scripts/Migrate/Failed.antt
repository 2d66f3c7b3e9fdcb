-- ===== src/Scripts/Migrate/Failed.antt =====
-- What a run of `run_migrations` of scripts/migrate.py that raises has done to the server and in
-- `schema_migrations`.
use mathlib.Core.List.{append-nil, append_assoc}
use corebank_api.Scripts.Migrate.{
  in_order, run_migrations, statements, contains, one_more, go_on, Store, apply, File,
  apply_pending, Server,
}
use corebank_api.Scripts.Migrate.Sent.{
  AreSent, IsLost, all_statements, sent_append, apply-AreSent, apply-IsLost, nothing,
}
use corebank_api.Scripts.Migrate.Order.{IsSorted, in_order-IsSorted}
use corebank_api.Scripts.Migrate.Applied.{pending, apply_ok}
use corebank_api.Errors.{err, ok, Result, Exception}
use corebank_api.Database.Engine.{Engine}
use corebank_api.Prelude.{
  refl, sym, [], inr, ◌∙◌, map, inl, ◌++◌, Bool-cases, ap, arith, ◌∷◌, String, ℕ, List, ◌≡◌,
}

module _ ⦃e : Engine⦄ {S : Type 0} (server : Server S) where
  same_error :
      {y x : Exception} {mid last : Store S}
      → ◌≡◌ {A = Result ℕ × Store S} (err y, mid) (err x, last)
      → y ≡ x
  same_error h = ground (arith, h)

  one_more_err :
      (r : Result ℕ × Store S) {x : Exception} {last : Store S}
      → one_more r ≡ (err x, last)
      → r ≡ (err x, last)
  one_more_err (ok k, store) h = absurd (ground arith)
  one_more_err (err x, store) h = h

  -- Of these files some are applied, the next one raises, and the rest is not looked at.
  pub record StopsIn (files : List File) (store : Store S) (x : Exception) (last : Store S)
      : Type 0 where
    pub before : List File
    pub failed : File
    pub after : List File
    pub reached : Store S
    pub parts : files ≡ before ++ failed ∷ after
    pub applied : reached.versions ≡ store.versions ++ map (λ (g : File). g.stem) before
    pub lost : IsLost server failed reached x last
    pub effects : AreSent server (all_statements before) store.state reached.state
    pub left : last.versions ≡ reached.versions

  go_on_err :
      (f : File) (files : List File) (store last : Store S) (rest : Store S → Result ℕ × Store S)
      {x : Exception}
      → ((mid : Store S) → rest mid ≡ (err x, last) → StopsIn files mid x last)
      → go_on (apply server f store) rest ≡ (err x, last)
      → StopsIn (f ∷ files) store x last
  go_on_err f files store last rest {x} ih h = go (apply server f store) refl h
    where
      go :
          (r : Result (Unit {0}) × Store S)
          → apply server f store ≡ r
          → go_on r rest ≡ (err x, last)
          → StopsIn (f ∷ files) store x last
      go (ok u, mid) step k =
          let later = ih mid (one_more_err (rest mid) k) in
          record {
            before = f ∷ later.before;
            failed = later.failed;
            after = later.after;
            reached = later.reached;
            parts = ap (λ l. f ∷ l) later.parts;
            applied =
                later.applied
                ∙ ap (λ v. v ++ map (λ (g : File). g.stem) later.before)
                    (apply_ok server f store mid step)
                ∙ append_assoc store.versions (f.stem ∷ []) _;
            effects =
                sent_append server (statements f.text) (all_statements later.before) store.state
                  mid.state later.reached.state (apply-AreSent server f store mid step)
                  later.effects;
            lost = later.lost;
            left = later.left;
          }
      go (err y, mid) step k =
          let stopped : apply server f store ≡ (err x, last) =
            step ∙ (λ i. (err (same_error k i), (k i).1)) in
          record {
            before = [];
            failed = f;
            after = files;
            reached = store;
            parts = refl;
            applied = sym (append-nil store.versions);
            effects = nothing;
            lost = (apply-IsLost server f store last stopped).0;
            left = (apply-IsLost server f store last stopped).1;
          }

  apply_pending_err :
      (done : List String) (files : List File) (store : Store S) {x : Exception} {last : Store S}
      → apply_pending server done files store ≡ (err x, last)
      → StopsIn (pending done files) store x last
  unfolding apply_pending
  apply_pending_err done [] store h = absurd (ground arith)
  apply_pending_err done (f ∷ files) store {x} {last} h = elim (Bool-cases (contains f.stem done)) [
    | inl old ↦ rw old (apply_pending_err done files store (rw (old, apply_pending) at h))
    | inr new ↦ rw new (
        go_on_err f (pending done files) store last (apply_pending server done files)
          (λ mid k. apply_pending_err done files mid k) (rw (new, apply_pending) at h))
  ]

  -- A run that raises has taken the files of the folder whose version was not recorded yet, by
  -- ascending file name, up to one that raised. Of the files before that one it has sent every
  -- statement, file by file, without a failure, and it has recorded exactly their stems. Of the one that
  -- raised it has sent the statements up to one that failed with this exception, or else all of them,
  -- and its stem had a row already; what they had done on the server stays.
  pub run_migrations_stops :
      (files : List File) (store last : Store S) (x : Exception)
      → run_migrations server files store ≡ (err x, last)
      → (ordered : List File) × IsSorted files ordered
        × StopsIn (pending store.versions ordered) store x last
  unfolding run_migrations
  run_migrations_stops files store last x h = (
    in_order files,
    in_order-IsSorted files,
    apply_pending_err store.versions (in_order files) store h,
  )
