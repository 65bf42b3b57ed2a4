-- ===== src/Jhttp/Getter/Values.antt =====
-- The parameters that jhttp/getter.go reads from a query.
use jrpc.Base.{
  ℕ, ◌≡◌, ◌≢◌, refl, ap, ◌∙◌, Bytes, codes, none, some, Bool, true, false, ◌&&◌, ◌||◌, List, [],
  ◌∷◌, ◌++◌, ◌==◌, ==_iff, leb, nat_eq, length, length-append, inl, inr, Eq-Bytes, arith,
}
use jrpc.Base.GoMap.{GoMap, get, get-put}
use jrpc.Base.Int.{ℤ, wrap64}
use jrpc.Code.{Registry}
use jrpc.Errors.{GoError}
use jrpc.Jhttp.Getter.{
  Query, Param, Parsers, parse_value, parse_json_string, parse_number, parse_constant,
  parse_quoted64, starts, ends, init, last_byte, drop_padding, basic_params, first_value,
  parse_basic, method_name,
}

last_byte-append : (b c : ℕ) (s : Bytes) → last_byte b (s ++ c ∷ []) ≡ c
last_byte-append b c [] = refl
last_byte-append b c (x ∷ s) = last_byte-append x c s

pub init-append : (s : Bytes) (c : ℕ) → init (s ++ c ∷ []) ≡ s
init-append [] c = refl
init-append (b ∷ []) c = refl
init-append (b ∷ x ∷ s) c = ap (◌∷◌ b) (init-append (x ∷ s) c)

-- A text between two bytes.
abbrev pub wrap : ℕ → Bytes → Bytes
wrap q s = q ∷ s ++ q ∷ []

wrap-quoted :
    (q : ℕ) (s : Bytes)
    → (leb 2 (length (wrap q s)) && (starts q (wrap q s) && ends q (wrap q s))) ≡ true
wrap-quoted q s = ground (arith, last_byte-append q q s, length-append s (q ∷ []))

wrap-other :
    (q r : ℕ) (s : Bytes) → nat_eq q r ≡ false → (starts r (wrap q s) || ends r (wrap q s)) ≡ false
wrap-other q r s h = ground (arith, last_byte-append q q s)

-- How a client writes the values, and what the standard library's parsers do with that: a JSON string
-- and padded base64 are decoded, and a number is parsed; nothing with a quote in front is a number, and
-- neither is a constant. `is_text` tells which strings JSON can carry, those of valid UTF-8, and
-- `is_number` which floating-point numbers a text can stand for; integers are those of an `int64`.
pub record Printer {F : Type 0} (lib : Parsers F) : Type 0 where
  pub is_text : Bytes → Bool
  pub is_number : F → Bool
  pub quoted : Bytes → Bytes
  pub base64 : Bytes → Bytes
  pub int : ℤ → Bytes
  pub decimal : F → Bytes
  pub unquote-quoted : (s : Bytes) → is_text s ≡ true → lib.unquote (wrap b'"' (quoted s)) ≡ inr s
  pub decode-base64 : (d : Bytes) → lib.decode_base64 (drop_padding (base64 d)) ≡ inr d
  pub parse-int : (z : ℤ) → wrap64 z ≡ z → lib.parse_int (int z) ≡ some z
  pub parse-decimal :
      (v : F)
      → is_number v ≡ true
      → (lib.parse_int (decimal v) ≡ none) × (lib.parse_float (decimal v) ≡ some v)
  pub int-bare : (z : ℤ) → (starts b'"' (int z) || ends b'"' (int z)) ≡ false
  pub decimal-bare : (v : F) → (starts b'"' (decimal v) || ends b'"' (decimal v)) ≡ false
  pub not_number :
      (s : Bytes)
      → (starts 39 s || (s == codes "true") || (s == codes "false") || (s == codes "null")) ≡ true
      → (lib.parse_int s ≡ none) × (lib.parse_float s ≡ none)

module _ {F : Type 0} (lib : Parsers F) (w : Printer lib) where
  abbrev pub print : Param F → Bytes
  print (Param.text s) = wrap b'"' (w.quoted s)
  print (Param.integer z) = w.int z
  print (Param.float v) = w.decimal v
  print (Param.boolean true) = codes "true"
  print (Param.boolean false) = codes "false"
  print Param.null = codes "null"
  print (Param.bytes d) = wrap 39 (w.base64 d)

  -- The values that a query can carry.
  abbrev pub IsPrintable : Param F → Type 0
  IsPrintable (Param.text s) = w.is_text s ≡ true
  IsPrintable (Param.integer z) = wrap64 z ≡ z
  IsPrintable (Param.float v) = w.is_number v ≡ true
  IsPrintable (Param.boolean b) = Unit
  IsPrintable Param.null = Unit
  IsPrintable (Param.bytes d) = Unit

-- The branches of the chain of tests.
module _ {F : Type 0} (lib : Parsers F) (texts : Registry) (quote : Bytes → Bytes)
    (key val : Bytes) where
  value-string :
      (d : Bytes)
      → parse_json_string lib val ≡ inr (some d)
      → parse_value lib texts quote key val ≡ inr (Param.text d)
  unfolding parse_value
  value-string d e = simp (parse_value, e)

  value-number :
      (n : Param F)
      → parse_json_string lib val ≡ inr none
      → parse_number lib val ≡ some n
      → parse_value lib texts quote key val ≡ inr n
  unfolding parse_value
  value-number n e f = simp (parse_value, e, f)

  value-constant :
      (b : Param F)
      → parse_json_string lib val ≡ inr none
      → parse_number lib val ≡ none
      → parse_constant lib val ≡ some b
      → parse_value lib texts quote key val ≡ inr b
  unfolding parse_value
  value-constant b e f g = simp (parse_value, e, f, g)

  value-bytes :
      (d : Bytes)
      → parse_json_string lib val ≡ inr none
      → parse_number lib val ≡ none
      → parse_constant lib val ≡ none
      → parse_quoted64 lib val ≡ inr (some d)
      → parse_value lib texts quote key val ≡ inr (Param.bytes d)
  unfolding parse_value
  value-bytes d e f g h = simp (parse_value, e, f, g, h)

no_string :
    {F : Type 0} (lib : Parsers F) (s : Bytes)
    → (starts b'"' s || ends b'"' s) ≡ false
    → parse_json_string lib s ≡ inr none
unfolding parse_json_string
no_string lib s e = ground arith

no_number :
    {F : Type 0} (lib : Parsers F) (s : Bytes)
    → (lib.parse_int s ≡ none) × (lib.parse_float s ≡ none)
    → parse_number lib s ≡ none
unfolding parse_number
no_number lib s (a, b) = simp (parse_number, a, b)

string-quoted :
    {F : Type 0} (lib : Parsers F) (s d : Bytes)
    → lib.unquote (wrap b'"' s) ≡ inr d
    → parse_json_string lib (wrap b'"' s) ≡ inr (some d)
unfolding parse_json_string
string-quoted lib s d e = simp (parse_json_string, wrap-quoted b'"' s, e)

bytes-quoted :
    {F : Type 0} (lib : Parsers F) (s d : Bytes)
    → lib.decode_base64 (drop_padding s) ≡ inr d
    → parse_quoted64 lib (wrap 39 s) ≡ inr (some d)
unfolding parse_quoted64
bytes-quoted lib s d e = simp (parse_quoted64, wrap-quoted 39 s, init-append s 39, e)

an_int :
    {F : Type 0} (lib : Parsers F) (s : Bytes) (z : ℤ)
    → lib.parse_int s ≡ some z
    → parse_number lib s ≡ some (Param.integer z)
unfolding parse_number
an_int lib s z e = simp (parse_number, e)

a_float :
    {F : Type 0} (lib : Parsers F) (s : Bytes) (v : F)
    → (lib.parse_int s ≡ none) × (lib.parse_float s ≡ some v)
    → parse_number lib s ≡ some (Param.float v)
unfolding parse_number
a_float lib s v (a, b) = simp (parse_number, a, b)

-- A value that is written as a JSON string, as a number, as one of the constants, or as base64 between
-- single quotes is read back by `ParseQuery` with its type: no form is taken for another one. Integers
-- are those of an `int64`, and texts and floating-point numbers those that the library's parsers are
-- assumed to read back.
pub parse_value-print :
    {F : Type 0} (lib : Parsers F) (w : Printer lib) (texts : Registry) (quote : Bytes → Bytes)
    (key : Bytes) (v : Param F)
    → IsPrintable lib w v
    → parse_value lib texts quote key (print lib w v) ≡ inr v
unfolding parse_json_string parse_constant
parse_value-print lib w texts quote key (Param.text s) h =
    value-string lib texts quote key (wrap b'"' (w.quoted s)) s
      (string-quoted lib (w.quoted s) s (w.unquote-quoted s h))
parse_value-print lib w texts quote key (Param.integer z) h =
    value-number lib texts quote key (w.int z) (Param.integer z)
      (no_string lib (w.int z) (w.int-bare z)) (an_int lib (w.int z) z (w.parse-int z h))
parse_value-print lib w texts quote key (Param.float v) h =
    value-number lib texts quote key (w.decimal v) (Param.float v)
      (no_string lib (w.decimal v) (w.decimal-bare v))
      (a_float lib (w.decimal v) v (w.parse-decimal v h))
parse_value-print lib w texts quote key (Param.boolean true) h =
    value-constant lib texts quote key (codes "true") (Param.boolean true) refl
      (no_number lib (codes "true") (w.not_number (codes "true") refl)) refl
parse_value-print lib w texts quote key (Param.boolean false) h =
    value-constant lib texts quote key (codes "false") (Param.boolean false) refl
      (no_number lib (codes "false") (w.not_number (codes "false") refl)) refl
parse_value-print lib w texts quote key Param.null h =
    value-constant lib texts quote key (codes "null") Param.null refl
      (no_number lib (codes "null") (w.not_number (codes "null") refl)) refl
parse_value-print lib w texts quote key (Param.bytes d) h =
    value-bytes lib texts quote key (wrap 39 (w.base64 d)) d
      (no_string lib (wrap 39 (w.base64 d)) (wrap-other 39 b'"' (w.base64 d) refl))
      (no_number lib (wrap 39 (w.base64 d)) (w.not_number (wrap 39 (w.base64 d)) refl)) refl
      (bytes-quoted lib (w.base64 d) d (w.decode-base64 d))

basic_params-get :
    (key : Bytes) (form : GoMap Bytes (List Bytes))
    → get key (basic_params form)
      ≡ elim (get key form) [ none ↦ none | some vs ↦ some (first_value vs) ]
unfolding get basic_params
basic_params-get key [] = refl
basic_params-get key ((k, vs) ∷ form) =
    get-put k key (first_value vs) (basic_params form) ∙ ground (arith, basic_params-get key form)

-- `ParseBasic` fails when the form cannot be parsed and when the path consists of slashes only. Otherwise
-- it gives the path without the slashes at its ends, and each key of the form, and no other, with its
-- first value.
pub parse_basic-params :
    (q : Query) (key : Bytes)
    → ((method_name q.path ≡ []) → (e : GoError) × (parse_basic (inr q) ≡ inl e))
      × ((method_name q.path ≢ [])
          → (params : GoMap Bytes Bytes) × (parse_basic (inr q) ≡ inr (method_name q.path, params))
            × (get key params
                ≡ elim (get key q.form) [ none ↦ none | some vs ↦ some (first_value vs) ]))
unfolding parse_basic
parse_basic-params q key = (
  λ e. (GoError.plain (codes "empty method name"), ground (arith, ==_iff (method_name q.path) [])),
  λ n. (
    basic_params q.form,
    ground (arith, ==_iff (method_name q.path) []),
    basic_params-get key q.form,
  ),
)
