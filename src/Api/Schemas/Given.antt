-- ===== src/Api/Schemas/Given.antt =====
-- What is in a loaded dict, and in a dict that a service has completed.
use corebank_api.Api.Schemas.{
  Value, null, Field, Schema, Dict, lookup, is_null, is_some, IsTaken, IsDeclared, IsGiven,
}
use corebank_api.Prelude.{
  ◌⊎◌, String, Bool, true, false, not, ◌&&◌, ◌||◌, Option, none, some, [], ◌∷◌, ◌++◌, ◌≡◌, All,
  refl, sym, subst, inl, inr, str_eq, str_eq_iff, Bool-cases, if◌then◌else◌, arith,
}

abbrev entered : Option Value → String → Value → Dict → Dict
entered none k v d = d ++ (k, v) ∷ []
entered (some _) k v d = d

-- `record.setdefault(k, v)`
unfoldable pub setdefault : String → Value → Dict → Dict
setdefault k v d = entered (lookup k d) k v d

unfoldable pub setdefaults : Dict → Dict → Dict
unfolding setdefault
setdefaults [] d = d
setdefaults ((k, v) ∷ rest) d = setdefaults rest (setdefault k v d)

-- `{k: v for k, v in data.items() if v is not None}`
unfoldable pub without_none : Dict → Dict
without_none [] = []
without_none ((k, v) ∷ rest) = if is_null v then without_none rest else (k, v) ∷ without_none rest

abbrev pub Has : String → Dict → Type 0
Has k d = (v : Value) × (lookup k d ≡ some v)

-- Whether a loaded dict has an entry for sure, and one that is not None.
abbrev pub is_given : Schema → String → Bool
is_given [] k = false
is_given (f ∷ s) k =
    (str_eq f.name k && (not f.dump_only && (f.required || is_some f.load_default))) || is_given s k

abbrev pub is_filled : Schema → String → Bool
is_filled [] k = false
is_filled (f ∷ s) k =
    (str_eq f.name k
      && (not f.dump_only && (f.required && (not f.allow_none && not (is_some f.load_default)))))
    || is_filled s k

-- Whether it may have one.
abbrev pub is_open : Schema → String → Bool
is_open [] k = false
is_open (f ∷ s) k = (str_eq f.name k && not f.dump_only) || is_open s k

abbrev pub is_key : Dict → String → Bool
is_key [] k = false
is_key ((name, _) ∷ rest) k = str_eq name k || is_key rest k

all_of : (a b c : Bool) → (a && (b && c)) ≡ true → (a ≡ true) × (b ≡ true) × (c ≡ true)
all_of a b c e = (ground arith, ground arith, ground arith)

pub either : (a b : Bool) → (a || b) ≡ true → (a ≡ true) ⊎ (b ≡ true)
either true b e = inl refl
either false b e = inr e

is_closed : (b : Bool) → not b ≡ true → b ≡ false
is_closed b e = ground arith

pub given-Has :
    (s : Schema) (k : String) (d : Dict) → All (IsGiven d) s → is_given s k ≡ true → Has k d
given-Has [] k d h e = cc e
given-Has (f ∷ s) k d h e = elim (either _ (is_given s k) e) [
  | inl here ↦
      let (name, open_field, due) = all_of (str_eq f.name k) (not f.dump_only) _ here in
      subst (λ k. Has k d) ((str_eq_iff f.name k).0 name)
        (h.0.needed (is_closed f.dump_only open_field) due)
  | inr there ↦ given-Has s k d h.1 there
]

filled_value :
    (f : Field) (v : Value)
    → f.allow_none ≡ false
    → f.load_default ≡ none
    → IsTaken f v
    → is_null v ≡ false
filled_value f null strict plain (inl e) = cc (e, strict)
filled_value f null strict plain (inr e) = cc (e, plain)
filled_value f _ strict plain taken = refl

no_default : (o : Option Value) → not (is_some o) ≡ true → o ≡ none
no_default none e = refl
no_default (some v) e = cc e

pub filled-Has :
    (s : Schema) (k : String) (d : Dict)
    → All (IsGiven d) s
    → is_filled s k ≡ true
    → (v : Value) × (lookup k d ≡ some v) × (is_null v ≡ false)
filled-Has [] k d h e = cc e
filled-Has (f ∷ s) k d h e = elim (either _ (is_filled s k) e) [
  | inl here ↦
      let (name, open_field, due) = all_of (str_eq f.name k) (not f.dump_only) _ here in
      let (due, strict, plain) = all_of f.required (not f.allow_none) _ due in
      let closed = is_closed f.dump_only open_field in
      let (v, found) = h.0.needed closed (rw due refl) in
      subst (λ k. (v : Value) × (lookup k d ≡ some v) × (is_null v ≡ false))
        ((str_eq_iff f.name k).0 name)
        (
          v,
          found,
          filled_value f v (is_closed f.allow_none strict) (no_default f.load_default plain)
              (h.0.taken closed v found),
        )
  | inr there ↦ filled-Has s k d h.1 there
]

pub lookup-without_none :
    (k : String) (d : Dict) {v : Value}
    → lookup k d ≡ some v
    → is_null v ≡ false
    → lookup k (without_none d) ≡ some v
unfolding without_none
lookup-without_none k [] e filled = cc e
lookup-without_none k ((name, x) ∷ rest) {v = v} e filled = elim (Bool-cases (str_eq name k)) [
  | inl here ↦
      let q : some x ≡ some v = rw here at e in
      let same_value : x ≡ v = cc q in
      rw (subst (λ y. is_null y ≡ false) (sym same_value) filled) (rw here q)
  | inr there ↦
      let below = lookup-without_none k rest (rw there at e) filled in
      elim (Bool-cases (is_null x)) [ inl gone ↦ rw gone below | inr kept ↦ rw (kept, there) below ]
]

pub lookup-without_none_missing :
    (k : String) (d : Dict) → lookup k d ≡ none → lookup k (without_none d) ≡ none
unfolding without_none
lookup-without_none_missing k [] e = refl
lookup-without_none_missing k ((name, x) ∷ rest) e =
    ground (arith, lookup-without_none_missing k rest)

pub lookup-append :
    (k : String) (d e : Dict) {v : Value} → lookup k d ≡ some v → lookup k (d ++ e) ≡ some v
lookup-append k [] e h = cc h
lookup-append k ((name, x) ∷ rest) e {v = v} h = elim (Bool-cases (str_eq name k)) [
  | inl here ↦ rw here (rw here at h)
  | inr there ↦ rw there (lookup-append k rest e (rw there at h))
]

pub lookup-append_last :
    (k : String) (d : Dict) (v : Value) → lookup k d ≡ none → lookup k (d ++ (k, v) ∷ []) ≡ some v
lookup-append_last k [] v h = rw ((str_eq_iff k k).1 refl) refl
lookup-append_last k ((name, x) ∷ rest) v h = elim (Bool-cases (str_eq name k)) [
  | inl here ↦ absurd (let q = rw here at h in cc q)
  | inr there ↦ rw there (lookup-append_last k rest v (rw there at h))
]

-- No entry for a name that no open field of the schema has.
pub lookup-missing :
    (s : Schema) (k : String) (d : Dict)
    → is_open s k ≡ false
    → All (IsDeclared s) d
    → lookup k d ≡ none
lookup-missing s k [] closed h = refl
lookup-missing s k ((name, x) ∷ rest) closed h = elim (Bool-cases (str_eq name k)) [
  | inl here ↦
      absurd
        (undeclared s closed (subst (λ n. IsDeclared s (n, x)) ((str_eq_iff name k).0 here) h.0))
  | inr there ↦ rw there (lookup-missing s k rest closed h.1)
]
  where
    undeclared : (s : Schema) → is_open s k ≡ false → IsDeclared s (k, x) → ⊥
    undeclared [] closed h = h
    undeclared (f ∷ s) closed (inl (name, open_field, _)) =
        let at : str_eq f.name k ≡ true = (str_eq_iff f.name k).1 name in
        ground (arith, at, open_field)
    undeclared (f ∷ s) closed (inr rest) = undeclared s (ground arith) rest

lookup-setdefault :
    (j k : String) (x : Value) (d : Dict) {v : Value}
    → lookup j d ≡ some v
    → lookup j (setdefault k x d) ≡ some v
unfolding setdefault
lookup-setdefault j k x d {v = v} h = go (lookup k d)
  where
    go : (o : Option Value) → lookup j (entered o k x d) ≡ some v
    go none = lookup-append j d ((k, x) ∷ []) h
    go (some _) = h

setdefault-Has : (k : String) (x : Value) (d : Dict) → Has k (setdefault k x d)
unfolding setdefault
setdefault-Has k x d = go (lookup k d) refl
  where
    go : (o : Option Value) → lookup k d ≡ o → Has k (entered o k x d)
    go none missing = (x, lookup-append_last k d x missing)
    go (some w) found = (w, found)

pub lookup-setdefaults :
    (j : String) (extra d : Dict) {v : Value}
    → lookup j d ≡ some v
    → lookup j (setdefaults extra d) ≡ some v
unfolding setdefaults
lookup-setdefaults j [] d h = h
lookup-setdefaults j ((k, x) ∷ rest) d h =
    lookup-setdefaults j rest (setdefault k x d) (lookup-setdefault j k x d h)

pub setdefaults-Has :
    (k : String) (extra d : Dict) → is_key extra k ≡ true → Has k (setdefaults extra d)
unfolding setdefaults
setdefaults-Has k [] d e = cc e
setdefaults-Has k ((name, x) ∷ rest) d e = elim (either (str_eq name k) (is_key rest k) e) [
  | inl here ↦
      let (v, found) = setdefault-Has name x d in
      (
        v,
        lookup-setdefaults k rest (setdefault name x d) (
            subst (λ n. lookup n (setdefault name x d) ≡ some v) ((str_eq_iff name k).0 here)
              found),
      )
  | inr there ↦ setdefaults-Has k rest (setdefault name x d) there
]
