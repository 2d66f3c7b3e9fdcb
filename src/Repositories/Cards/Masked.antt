-- ===== src/Repositories/Cards/Masked.antt =====
-- What of a card the masked columns of app/repositories/cards.py show.
use Prim.Native.String.append
use Prim.Native.String.{◌++◌ as ◌++ˢ◌}
use corebank_api.Repositories.Cards.{SafeCard, safe, masked, right, drop_chars, text_length}
use corebank_api.Database.Schema.{Card}
use corebank_api.Prelude.{
  sym, ◌∙◌, below_or_above, ap, ℕ, zero, suc, ◌-◌, ◌<◌, String, codes, length, refl, arith, ◌≡◌,
  ◌⊎◌, inl, inr,
}

-- Twelve stars and the last four characters of a number, or all of one that has fewer.
pub record IsMasked (number shown : String) : Type 0 where
  pub hidden : String
  pub tail : String
  pub parts : number ≡ hidden ++ˢ tail
  pub four : (length (codes tail) ≡ 4) ⊎ ((length (codes tail) < 4) × (hidden ≡ ""))
  pub shows : shown ≡ "************" ++ˢ tail

-- The columns of a card but its cvv, with its number masked.
pub record IsSafe (c : Card) (shown : SafeCard) : Type 0 where
  pub card_id : shown.card_id ≡ c.card_id
  pub account_id : shown.account_id ≡ c.account_id
  pub card_type : shown.card_type ≡ c.card_type
  pub card_number : IsMasked c.card_number shown.card_number
  pub expiration_date : shown.expiration_date ≡ c.expiration_date
  pub status : shown.status ≡ c.status

text_length_lem : (s : String) → text_length s ≡ length (codes s)
unfolding text_length
text_length_lem String.[] = refl
text_length_lem (String.◌∷◌ c s) = ground (arith, text_length_lem s)

-- A text and what is left of it after some characters.
record IsCut (n : ℕ) (s tail : String) : Type 0 where
  front : String
  joined : s ≡ front ++ˢ tail
  size : length (codes tail) ≡ length (codes s) - n
  whole : n ≡ 0 → front ≡ ""

drop_chars-IsCut : (n : ℕ) (s : String) → IsCut n s (drop_chars n s)
unfolding drop_chars
drop_chars-IsCut zero s = record {
  front = "";
  joined = sym (append.nil s);
  size = omega arith;
  whole = λ z. refl;
}
drop_chars-IsCut (suc n) String.[] = record {
  front = "";
  joined = sym (append.nil "");
  size = omega arith;
  whole = λ z. refl;
}
drop_chars-IsCut (suc n) (String.◌∷◌ c s) =
    let cut = drop_chars-IsCut n s in
    record {
      front = String.◌∷◌ c cut.front;
      joined = ap (λ t. String.◌∷◌ c t) cut.joined ∙ sym (append.cons c cut.front (drop_chars n s));
      size = omega (arith, cut.size);
      whole = λ z. absurd (omega (arith, z));
    }

masked-IsMasked : (number : String) → IsMasked number (masked number)
unfolding masked right
masked-IsMasked number =
    let cut = drop_chars-IsCut (text_length number - 4) number in
    record {
      hidden = cut.front;
      tail = right number 4;
      parts = cut.joined;
      four = elim (below_or_above (text_length number) 4) [
        | inl short ↦ inr (
          omega (arith, cut.size, text_length_lem number, short),
          cut.whole (omega (arith, short)),
        )
        | inr long ↦ inl (omega (arith, cut.size, text_length_lem number, long))
      ];
      shows = refl;
    }

pub safe-IsSafe : (c : Card) → IsSafe c (safe c)
unfolding safe
safe-IsSafe c = record {
  card_id = refl;
  account_id = refl;
  card_type = refl;
  card_number = masked-IsMasked c.card_number;
  expiration_date = refl;
  status = refl;
}
