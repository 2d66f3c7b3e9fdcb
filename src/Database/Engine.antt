-- ===== src/Database/Engine.antt =====
-- What the code relies on in PyMySQL and the MySQL server, neither of which is in the repository:
-- a parameter of every statement. app/db/pool.py sets no client flag and no collation of its own.
use corebank_api.Prelude.{ℕ, String, ◌≡◌, ◌∙◌, sym, refl, Bool, true, false, str_eq, str_eq_iff}
use corebank_api.Errors.{
  ErrorClass, integrity_error, data_error, operational_error, Exception, db_error,
}

pub record Engine : Type 0 where
  -- whether an UPDATE reports the rows that it matched (CLIENT.FOUND_ROWS) or those it changed
  pub found_rows : Bool
  -- two texts are equal in SQL when their keys under the column's collation are
  pub collation_key : String → String
  -- the class of `pymysql.err` that a server error is raised as
  pub error_class : ℕ → ErrorClass

-- Server errors by number.
abbrev pub dup_entry : ℕ
dup_entry = 1062

abbrev pub row_is_referenced : ℕ
row_is_referenced = 1451

abbrev pub no_referenced_row : ℕ
no_referenced_row = 1452

abbrev pub out_of_range : ℕ
out_of_range = 1264

abbrev pub check_violated : ℕ
check_violated = 3819

abbrev pub parse_error : ℕ
parse_error = 1064

-- PyMySQL's documented `error_map`, for the errors that the schema can give rise to.
pub record IsPyMysql (e : Engine) : Type 0 where
  pub duplicates : e.error_class dup_entry ≡ integrity_error
  pub references : e.error_class no_referenced_row ≡ integrity_error
  pub referenced : e.error_class row_is_referenced ≡ integrity_error
  pub ranges : e.error_class out_of_range ≡ data_error
  -- not in the map; errors from 1000 on that are not are `OperationalError`
  pub checks : e.error_class check_violated ≡ operational_error
  -- PyMySQL asks for CLIENT.FOUND_ROWS only if it is told to
  pub changed_rows : e.found_rows ≡ false

module _ ⦃e : Engine⦄ where
  -- `a = b` in SQL
  unfoldable pub same : String → String → Bool
  same a b = str_eq (e.collation_key a) (e.collation_key b)

  unfoldable pub server_error : ℕ → Exception
  server_error n = db_error (e.error_class n) n

  pub same_eq : (a b : String) → same a b ≡ true → e.collation_key a ≡ e.collation_key b
  unfolding same
  same_eq a b h = (str_eq_iff _ _).0 h

  pub same_refl : (a : String) → same a a ≡ true
  unfolding same
  same_refl a = (str_eq_iff _ _).1 refl

  pub same_sym : (a b : String) → same a b ≡ true → same b a ≡ true
  unfolding same
  same_sym a b h = (str_eq_iff _ _).1 (sym (same_eq a b h))

  pub same_trans : (a b c : String) → same a b ≡ true → same b c ≡ true → same a c ≡ true
  unfolding same
  same_trans a b c h k = (str_eq_iff _ _).1 (same_eq a b h ∙ same_eq b c k)
