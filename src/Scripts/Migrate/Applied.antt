-- ===== src/Scripts/Migrate/Applied.antt =====
-- What a run of `run_migrations` of scripts/migrate.py leaves in `schema_migrations`.
use corebank_api.Prelude.{
  str_eq_iff, str_eq, subst, All, true, ◌∙◌, sym, ap, inr, inl, Bool-cases, [], refl, map, ◌∷◌,
  arith, ◌+◌, ◌++◌, length, not, ◌≡◌, ℕ, List, String,
}
use corebank_api.Database.Engine.{Engine}
use corebank_api.Scripts.Migrate.{
  in_order, run_migrations, statements, execute_all, recorded, contains, one_more, go_on, Store,
  record_version, apply, File, apply_pending, Server,
}
use corebank_api.Errors.{err, ok, Result}
use corebank_api.Database.Rows.{select}
use mathlib.Core.List.{append-nil, append_assoc}
use corebank_api.Database.Rows.Keys.{exists-append}

-- The files of the folder that are not applied yet, in the order of their names.
abbrev pub pending : List String → List File → List File
pending done files = select (λ f. not (contains f.stem done)) files

module _ ⦃e : Engine⦄ {S : Type 0} (server : Server S) where
  pub apply_ok :
      (f : File) (store store' : Store S) {u : Unit {0}}
      → apply server f store ≡ (ok u, store')
      → store'.versions ≡ store.versions ++ f.stem ∷ []
  unfolding apply record_version
  apply_ok f store store' h = go (execute_all server (statements f.text) store.state) h
    where
      go :
          (r : Result (Unit {0}) × S)
          → recorded f.stem r store ≡ (ok _, store')
          → store'.versions ≡ store.versions ++ f.stem ∷ []
      go (ok _, s) h = ground arith
      go (err x, s) h = absurd (ground arith)

  one_more_ok :
      (r : Result ℕ × Store S) {n : ℕ} {last : Store S}
      → one_more r ≡ (ok n, last)
      → (k : ℕ) × (r ≡ (ok k, last)) × (n ≡ k + 1)
  one_more_ok (ok k, store) h = (k, ground arith, ground arith)
  one_more_ok (err x, store) h = absurd (ground arith)

  go_on_ok :
      (r : Result (Unit {0}) × Store S) (rest : Store S → Result ℕ × Store S) {n : ℕ}
      {last : Store S}
      → go_on r rest ≡ (ok n, last)
      → (mid : Store S) × (k : ℕ) × (r ≡ (ok tt, mid)) × (rest mid ≡ (ok k, last)) × (n ≡ k + 1)
  go_on_ok (ok u, mid) rest h =
      let (k, e, size) = one_more_ok (rest mid) h in (mid, k, refl, e, size)
  go_on_ok (err x, mid) rest h = absurd (ground arith)

  same_store : {p q : Result ℕ × Store S} → p ≡ q → p.1 ≡ q.1
  same_store h = ap (λ x. x.1) h

  apply_pending_ok :
      (done : List String) (files : List File) (store : Store S) {n : ℕ} {last : Store S}
      → apply_pending server done files store ≡ (ok n, last)
      → (n ≡ length (pending done files))
        × (last.versions ≡ store.versions ++ map (λ (f : File). f.stem) (pending done files))
  unfolding apply_pending
  apply_pending_ok done [] store h = (
    ground arith,
    (ap (λ (t : Store S). t.versions) (sym (same_store h))) ∙ sym (append-nil store.versions),
  )
  apply_pending_ok done (f ∷ files) store h = elim (Bool-cases (contains f.stem done)) [
    | inl old ↦ rw old (apply_pending_ok done files store (rw (old, apply_pending) at h))
    | inr new ↦
        let (mid, k, step, rest, size) =
          go_on_ok (apply server f store) (apply_pending server done files)
            (rw (new, apply_pending) at h) in
        let (ih, left) = apply_pending_ok done files mid rest in
        rw new (
          omega (arith, ih, size),
          left
              ∙ ap (λ v. v ++ map (λ (f : File). f.stem) (pending done files))
                  (apply_ok f store mid step)
              ∙ append_assoc store.versions (f.stem ∷ []) _,
        )
  ]

  contains-append :
      (v : String) (xs ys : List String) → contains v xs ≡ true → contains v (xs ++ ys) ≡ true
  contains-append v xs ys h = rw (exists-append (λ u. str_eq u v) xs ys) (rw h)

  contains_last : (v : String) (xs : List String) → contains v (xs ++ v ∷ []) ≡ true
  contains_last v xs =
      ground (arith, exists-append (λ u. str_eq u v) xs (v ∷ []), (str_eq_iff v v).1 refl)

  -- After these files are applied every file of the folder is recorded.
  abbrev AllRecorded : List String → List File → List File → Type 0
  AllRecorded base applied files =
      All (λ (f : File). contains f.stem (base ++ map (λ (g : File). g.stem) applied) ≡ true) files

  all_recorded :
      (done base : List String) (files : List File)
      → ((v : String) → contains v done ≡ true → contains v base ≡ true)
      → AllRecorded base (pending done files) files
  all_recorded done base [] within = tt
  all_recorded done base (f ∷ files) within = elim (Bool-cases (contains f.stem done)) [
    | inl old ↦
        let same_files : pending done (f ∷ files) ≡ pending done files = rw old in
        subst (λ l. AllRecorded base l (f ∷ files)) (sym same_files)
          (contains-append f.stem base _ (within f.stem old), all_recorded done base files within)
    | inr new ↦
        let stems = map (λ (g : File). g.stem) (pending done files) in
        let next = base ++ f.stem ∷ [] in
        let ih =
          all_recorded done next files (λ v h. contains-append v base (f.stem ∷ []) (within v h)) in
        let same_list : next ++ stems ≡ base ++ f.stem ∷ stems =
          append_assoc base (f.stem ∷ []) stems in
        let same_files : pending done (f ∷ files) ≡ f ∷ pending done files = rw new in
        subst (λ l. AllRecorded base l (f ∷ files)) (sym same_files)
          (
            subst (λ l. contains f.stem l ≡ true) same_list
                (contains-append f.stem next stems (contains_last f.stem base)),
            subst (λ l. All (λ (g : File). contains g.stem l ≡ true) files) same_list ih,
          )
  ]

  skip-All :
      (done : List String) (files : List File) (store : Store S)
      → All (λ (f : File). contains f.stem done ≡ true) files
      → apply_pending server done files store ≡ (ok 0, store)
  unfolding apply_pending
  skip-All done [] store h = refl
  skip-All done (f ∷ files) store h = rw (h.0, apply_pending) (skip-All done files store h.1)

  -- A run that succeeds has recorded the stems of exactly the files whose version was not recorded
  -- yet, each once and in the order of the file names, after the versions that were there, and
  -- returns their number.
  pub run_migrations_records :
      (files : List File) (store last : Store S) (n : ℕ)
      → run_migrations server files store ≡ (ok n, last)
      → (n ≡ length (pending store.versions (in_order files)))
        × (last.versions
            ≡ store.versions
              ++ map (λ (f : File). f.stem) (pending store.versions (in_order files)))
  unfolding run_migrations
  run_migrations_records files store last n h =
      apply_pending_ok store.versions (in_order files) store h

  -- A second run after one that succeeded, over the same folder, applies nothing and executes no
  -- statement of a file: it returns 0 and leaves the server and the versions as they are.
  pub run_migrations_idem :
      (files : List File) (store last : Store S) (n : ℕ)
      → run_migrations server files store ≡ (ok n, last)
      → run_migrations server files last ≡ (ok 0, last)
  unfolding run_migrations
  run_migrations_idem files store last n h = skip-All last.versions (in_order files) last (
      subst (λ l. All (λ (f : File). contains f.stem l ≡ true) (in_order files))
        (sym (apply_pending_ok store.versions (in_order files) store h).1)
        (all_recorded store.versions store.versions (in_order files) (λ v h. h)))
