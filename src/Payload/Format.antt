-- ===== src/Payload/Format.antt =====
-- What a payload satisfies once it is accepted.
use crypto_auto_trader.Base.{ℕ, ◌≤◌, ◌≡◌, true, some, arith, all, length}
use crypto_auto_trader.Text.{Text}
use crypto_auto_trader.Numbers.{Decimal, zero_decimal, is_finite, decimal_lt}
use crypto_auto_trader.Payload.{
  RawPayload, Payload, signal_id_char, symbol_char, signal_id_match, symbol_match,
  validate_signal_id, validate_symbol, validate_quantity, decimal_places, parse_payload,
}

-- What the rest of the program may rely on.
pub record IsWellFormed (p : Payload) : Type 0 where
  pub signal_id_chars : all signal_id_char p.signal_id ≡ true
  pub signal_id_short : length p.signal_id ≤ 64
  pub signal_id_given : 1 ≤ length p.signal_id
  pub symbol_chars : all symbol_char p.symbol ≡ true
  pub symbol_length : (5 ≤ length p.symbol) × (length p.symbol ≤ 20)
  pub quantity_finite : is_finite p.quantity ≡ true
  pub quantity_positive : decimal_lt zero_decimal p.quantity ≡ some true
  pub quantity_places : decimal_places p.quantity ≤ 12

signal_id_facts :
    (v s : Text)
    → validate_signal_id v ≡ some s
    → (all signal_id_char s ≡ true) × (length s ≤ 64) × (1 ≤ length s)
unfolding validate_signal_id signal_id_match
signal_id_facts v s h = ground arith

symbol_facts :
    (table : ℕ → Text) (v s : Text)
    → validate_symbol table v ≡ some s
    → (all symbol_char s ≡ true) × (5 ≤ length s) × (length s ≤ 20)
unfolding validate_symbol symbol_match
symbol_facts table v s h = ground arith

quantity_facts :
    (v q : Decimal)
    → validate_quantity v ≡ some q
    → (is_finite q ≡ true) × (decimal_lt zero_decimal q ≡ some true) × (decimal_places q ≤ 12)
unfolding validate_quantity
quantity_facts v q h = ground arith

made :
    (table : ℕ → Text) (raw : RawPayload) (p : Payload)
    → parse_payload table raw ≡ some p
    → (validate_signal_id raw.signal_id ≡ some p.signal_id)
      × (validate_symbol table raw.symbol ≡ some p.symbol)
      × (validate_quantity raw.quantity ≡ some p.quantity)
unfolding parse_payload
made table raw p h = ground arith

-- A payload that is accepted has a signal id of 1 to 64 permitted characters, a symbol of 5 to 20
-- letters and digits, and a quantity that is finite, above 0 and given to at most 12 places.
pub parse_payload-IsWellFormed :
    (table : ℕ → Text) (raw : RawPayload) (p : Payload)
    → parse_payload table raw ≡ some p
    → IsWellFormed p
parse_payload-IsWellFormed table raw p h =
    let (signal, symbol, quantity) = made table raw p h in
    let (chars, short, given) = signal_id_facts raw.signal_id p.signal_id signal in
    let (symbols, at_least, at_most) = symbol_facts table raw.symbol p.symbol symbol in
    let (finite, positive, places) = quantity_facts raw.quantity p.quantity quantity in
    record {
      signal_id_chars = chars;
      signal_id_short = short;
      signal_id_given = given;
      symbol_chars = symbols;
      symbol_length = (at_least, at_most);
      quantity_finite = finite;
      quantity_positive = positive;
      quantity_places = places;
    }
