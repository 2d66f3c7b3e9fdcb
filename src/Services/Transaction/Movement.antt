-- ===== src/Services/Transaction/Movement.antt =====
-- The debit and the credit of app/services/transaction_service.py, account by account.
use mathlib.Core.Option
use corebank_api.Prelude.{
  ◌∙◌, Option-cases, refl, [], if◌then◌else◌, leb_ℤ, arith, inr, ◌∷◌, inl, Option, ◌≤ℤ◌, Bool-cases,
  true, some, false, ◌≡◌, List, ℤ, String,
}
use corebank_api.Database.Engine.{same_sym, same_trans, same, Engine}
use corebank_api.Database.Schema.{Account}
use corebank_api.Database.Rows.{count, find}
use corebank_api.Database.Rows.Keys.{count-UniqueKey, UniqueKey}
use corebank_api.Repositories.Accounts.Money.{
  raise_balance, is_funded, lower, raised, lowered, is_account,
}
use corebank_api.Database.Rows.Replace.{find-replace, count-and-le, count_of_find}

module _ ⦃e : Engine⦄ where
  -- Under a unique key the account that is found is the one that the funds test is about.
  pub covered :
      (id : String) (amount : ℤ) {a : Account} (rows : List Account)
      → UniqueKey (λ (r : Account). r.account_id) rows
      → find (is_account id) rows ≡ some a
      → count (is_funded id amount) rows ≡ 1
      → amount ≤ℤ a.balance
  covered id amount {a} [] unique found one = cc
  covered id amount {a} (x ∷ xs) unique found one = elim (Bool-cases (is_account id x)) [
    | inl e ↦
        let rest = count-UniqueKey (λ (r : Account). r.account_id) id (x ∷ xs) unique in
        ground (arith, rest, count-and-le (is_account id) (λ a. leb_ℤ amount a.balance) xs)
    | inr e ↦ covered id amount {a = a} xs unique.1 (ground arith) (ground arith)
  ]

  -- Another row than the receiver's, though the texts of the ids may differ only for Python.
  pub apart :
      (sid rid : String) (a : Account)
      → same sid rid ≡ false
      → is_account sid a ≡ true
      → is_account rid a ≡ false
  apart sid rid a distinct e = elim (Bool-cases (is_account rid a)) [
    | inl f ↦ cc (distinct, same_trans sid a.account_id rid (same_sym a.account_id sid e) f)
    | inr f ↦ f
  ]

  pub found_lowered :
      (id key : String) (amount : ℤ) (rows : List Account)
      → find (is_account key) (lowered id amount rows)
        ≡ Option.map
            (λ r. if is_funded id amount r then lower amount r else r)
            (find (is_account key) rows)
  found_lowered id key amount rows =
      find-replace (is_funded id amount) (lower amount) (is_account key) (λ a. refl) rows

  pub found_raised :
      (id key : String) (amount : ℤ) (rows : List Account)
      → find (is_account key) (raised id amount rows)
        ≡ Option.map
            (λ r. if is_account id r then raise_balance amount r else r)
            (find (is_account key) rows)
  found_raised id key amount rows =
      find-replace (is_account id) (raise_balance amount) (is_account key) (λ a. refl) rows

  pub distinct_sym : (a b : String) → same a b ≡ false → same b a ≡ false
  distinct_sym a b h = elim (Bool-cases (same b a)) [ inl f ↦ cc (h, same_sym b a f) | inr f ↦ f ]

  untouched :
      (sid rid key : String) (amount : ℤ) (rows : List Account)
      → same key sid ≡ false
      → same key rid ≡ false
      → Option.map
          (λ r. if is_account rid r then raise_balance amount r else r)
          (Option.map
            (λ r. if is_funded sid amount r then lower amount r else r)
            (find (is_account key) rows))
        ≡ find (is_account key) rows
  untouched sid rid key amount rows ks kr = elim (Option-cases (find (is_account key) rows)) [
    | inl gone ↦ rw gone
    | inr (c, f) ↦
        let ec = (count_of_find (is_account key) rows f).1 in
        rw f (rw (apart key sid c ks ec) (rw (apart key rid c kr ec)))
  ]

  pub find-same :
      (key id : String) (rows : List Account)
      → same key id ≡ true
      → find (is_account key) rows ≡ find (is_account id) rows
  find-same key id [] h = refl
  find-same key id (x ∷ xs) h = ground (
    arith,
    find-same key id xs h,
    same_trans x.account_id key id,
    same_trans x.account_id id key,
    same_sym key id h,
  )

  -- The movement, account by account, between two accounts with keys that differ for the database.
  moved_rows :
      (sid rid : String) (amount : ℤ) {a b : Account} (rows : List Account)
      → same sid rid ≡ false
      → find (is_account sid) rows ≡ some a
      → find (is_account rid) rows ≡ some b
      → amount ≤ℤ a.balance
      → (find (is_account sid) (raised rid amount (lowered sid amount rows))
          ≡ some (lower amount a))
        × (find (is_account rid) (raised rid amount (lowered sid amount rows))
            ≡ some (raise_balance amount b))
        × ((key : String)
            → same key sid ≡ false
            → same key rid ≡ false
            → find (is_account key) (raised rid amount (lowered sid amount rows))
              ≡ find (is_account key) rows)
  moved_rows sid rid amount {a} {b} rows distinct fa fb enough =
      let ea : is_account sid a ≡ true = (count_of_find (is_account sid) rows fa).1 in
      let eb : is_account rid b ≡ true = (count_of_find (is_account rid) rows fb).1 in
      let na : is_account rid a ≡ false = apart sid rid a distinct ea in
      let nb : is_account sid b ≡ false = apart rid sid b (distinct_sym sid rid distinct) eb in
      let funded : is_funded sid amount a ≡ true = rw ea (ground arith) in
      (
        rw
            (
              found_raised rid sid amount (lowered sid amount rows),
              found_lowered sid sid amount rows,
              fa,
            )
            (rw (funded, na)),
        rw
            (
              found_raised rid rid amount (lowered sid amount rows),
              found_lowered sid rid amount rows,
              fb,
            )
            (rw (nb, eb)),
        λ key ks kr.
            rw
              (
                found_raised rid key amount (lowered sid amount rows),
                found_lowered sid key amount rows,
              )
              (untouched sid rid key amount rows ks kr),
      )

  -- The accounts after a movement between accounts whose ids differ for the database.
  abbrev pub balances_after :
      String → String → ℤ → Account → Account → List Account → String → Option Account
  balances_after sid rid amount a b rows key =
      if same key sid
      then some (lower amount a)
      else if same key rid
      then some (raise_balance amount b)
      else find (is_account key) rows

  pub moved_row :
      (sid rid : String) (amount : ℤ) {a b : Account} (rows : List Account) (key : String)
      → same sid rid ≡ false
      → find (is_account sid) rows ≡ some a
      → find (is_account rid) rows ≡ some b
      → amount ≤ℤ a.balance
      → find (is_account key) (raised rid amount (lowered sid amount rows))
        ≡ balances_after sid rid amount a b rows key
  moved_row sid rid amount {a} {b} rows key distinct fa fb enough =
      let (at_sender, at_receiver, elsewhere) =
        moved_rows sid rid amount {a = a} {b = b} rows distinct fa fb enough in
      let after = raised rid amount (lowered sid amount rows) in
      elim (Bool-cases (same key sid)) [
        | inl p ↦ rw p (find-same key sid after p ∙ at_sender)
        | inr p ↦ elim (Bool-cases (same key rid)) [
          | inl q ↦ rw (p, q) (find-same key rid after q ∙ at_receiver)
          | inr q ↦ rw (p, q) (elsewhere key p q)
        ]
      ]
