-- ===== src/Apply/RoundTrip.antt =====
-- The text of an entry, and the entry read back from it, of src/pgraft_apply.c.
use pgraft.Base.{
  ℕ, zero, suc, ◌+◌, ◌/◌, ◌%◌, ◌<◌, ◌≤◌, ◌≡◌, ◌≢◌, ◌∙◌, refl, ap, inl, inr, false, some, List, [],
  ◌∷◌, ◌++◌, ◌==◌, ltb, Bool-cases, take-all, get_or, length, CString, Lacks, AllTokens, tokens,
  tokens-join, join, two31, two32, two64, ◌-◌, decimal, decimal32, print_digits, strtoull-decimal,
  atoi-decimal32, decimal-Lacks, decimal-ne-nil, decimal32-Lacks, decimal32-ne-nil, BeginsDigit,
  decimal-BeginsDigit, arith,
}
use pgraft.Apply.Entries.{
  RaftEntry, bar, brace, until_nul, entry_of, parse_log_entry, entry_text, serialize_log_entry,
}

-- A text that survives as a field of at most `n` characters: it is not empty, and has no `|` and no
-- terminator.
pub record IsField (n : ℕ) (s : CString) : Type 0 where
  pub some_text : s ≢ []
  pub no_bar : Lacks bar s
  pub no_nul : Lacks 0 s
  pub short : length s ≤ n

pub record IsPlain (e : RaftEntry) : Type 0 where
  pub index_word : e.index < two64
  pub term_word : e.term < two64
  pub op_word : e.op < two32
  pub database_field : IsField 63 e.database
  pub schema_field : IsField 63 e.schema
  pub sql_field : IsField 4095 e.sql

length-join2 : (s t : CString) → length (s ++ (bar ∷ t)) ≡ length s + 1 + length t
length-join2 [] t = omega arith
length-join2 (c ∷ s) t = omega (arith, length-join2 s t)

length-print :
    (rounds n : ℕ) (out : CString) → length (print_digits rounds n out) ≤ rounds + length out
unfolding print_digits
length-print zero n out = omega arith
length-print (suc rounds) n out = elim (Bool-cases (ltb n 10)) [
  | inl last ↦ rw (print_digits, last) (omega arith)
  | inr more ↦
      rw (print_digits, more) (omega (arith, length-print rounds (n / 10) ((48 + n % 10) ∷ out)))
]

length-decimal : (n : ℕ) → length (decimal n) ≤ 20
unfolding decimal
length-decimal n = omega (arith, length-print 20 n [])

length-decimal32 : (n : ℕ) → length (decimal32 n) ≤ 21
unfolding decimal32
length-decimal32 n = elim (Bool-cases (ltb n two31)) [
  | inl small ↦ rw small (omega (arith, length-decimal n))
  | inr negative ↦ rw negative (omega (arith, length-decimal (two32 - n)))
]

Lacks-append : (c : ℕ) (s t : CString) → Lacks c s → Lacks c t → Lacks c (s ++ t)
Lacks-append c [] t h k = k
Lacks-append c (b ∷ s) t h k = (h.0, Lacks-append c s t h.1 k)

until_nul-plain : (s : CString) → Lacks 0 s → until_nul s ≡ s
unfolding until_nul
until_nul-plain [] h = refl
until_nul-plain (c ∷ s) h = rw (h.0, until_nul-plain s h.1)

begins-append : (s t : CString) → BeginsDigit s → (get_or (s ++ t) 0 0 == brace) ≡ false
begins-append [] t h = ground (arith, h)
begins-append (c ∷ s) t h = ground (arith, h)

some-append : (s t : CString) → BeginsDigit s → (length (s ++ t) == 0) ≡ false
some-append [] t h = ground (arith, h)
some-append (c ∷ s) t h = ground (arith, h)

module _ (e : RaftEntry) (p : IsPlain e) where
  abbrev parts : List CString
  parts = decimal e.index ∷ decimal e.term ∷ decimal32 e.op ∷ e.database ∷ e.schema ∷ e.sql ∷ []

  parts-AllTokens : AllTokens bar parts
  parts-AllTokens = (
    (decimal-ne-nil e.index, decimal-Lacks bar e.index refl),
    (
      (decimal-ne-nil e.term, decimal-Lacks bar e.term refl),
      (
        (decimal32-ne-nil e.op, decimal32-Lacks bar e.op refl refl),
        (
          (p.database_field.some_text, p.database_field.no_bar),
          (
            (p.schema_field.some_text, p.schema_field.no_bar),
            ((p.sql_field.some_text, p.sql_field.no_bar), tt),
          ),
        ),
      ),
    ),
  )

  text-Lacks : Lacks 0 (entry_text e)
  unfolding entry_text join
  text-Lacks = Lacks-append 0 (decimal e.index) _ (decimal-Lacks 0 e.index refl) (
    refl,
    Lacks-append 0 (decimal e.term) _ (decimal-Lacks 0 e.term refl) (
      refl,
      Lacks-append 0 (decimal32 e.op) _ (decimal32-Lacks 0 e.op refl refl) (
        refl,
        Lacks-append 0 e.database _ p.database_field.no_nul
            (refl, Lacks-append 0 e.schema _ p.schema_field.no_nul (refl, p.sql_field.no_nul)),
      ),
    ),
  )

  text-short : length (entry_text e) ≤ 8191
  unfolding entry_text join
  text-short =
      rw
        (
          length-join2 (decimal e.index),
          length-join2 (decimal e.term),
          length-join2 (decimal32 e.op),
          length-join2 e.database,
          length-join2 e.schema,
        )
        (omega (
          arith,
          length-decimal e.index,
          length-decimal e.term,
          length-decimal32 e.op,
          p.database_field.short,
          p.schema_field.short,
          p.sql_field.short,
        ))

  entry_of-parts : entry_of parts ≡ some e
  unfolding entry_of
  entry_of-parts =
      rw
        (
          strtoull-decimal e.index p.index_word,
          strtoull-decimal e.term p.term_word,
          atoi-decimal32 e.op p.op_word,
          take-all 63 e.database p.database_field.short,
          take-all 63 e.schema p.schema_field.short,
          take-all 4095 e.sql p.sql_field.short,
        )
        refl

  text-no_brace : (get_or (entry_text e) 0 0 == brace) ≡ false
  unfolding entry_text join
  text-no_brace = begins-append (decimal e.index) _ (decimal-BeginsDigit e.index)

  text-some : (length (entry_text e) == 0) ≡ false
  unfolding entry_text join
  text-some = some-append (decimal e.index) _ (decimal-BeginsDigit e.index)

  final : entry_of (tokens bar (entry_text e)) ≡ some e
  unfolding entry_text
  final = ap entry_of (tokens-join bar parts parts-AllTokens) ∙ entry_of-parts

  -- An entry whose numbers fit their types and whose three texts fit their fields, are not empty
  -- and hold neither a `|` nor a terminator is read back whole from its text, and the length
  -- reported with the text is the text's.
  pub parse-serialize :
      (parse_log_entry (serialize_log_entry (some e)).0 (serialize_log_entry (some e)).1 ≡ some e)
      × ((serialize_log_entry (some e)).0 ≡ some (entry_text e))
      × ((serialize_log_entry (some e)).1 ≡ length (entry_text e))
  unfolding serialize_log_entry parse_log_entry
  parse-serialize = rw (take-all 8191 (entry_text e) text-short) (
    rw
        (
          text-some,
          text-no_brace,
          take-all (length (entry_text e)) (entry_text e) (omega arith),
          until_nul-plain (entry_text e) text-Lacks,
        )
        final,
    refl,
    refl,
  )
