-- ===== src/Message/Fields.antt =====
-- The fields of an object come from a Go map, whose order is not fixed: what of a message depends
-- on that order, and which messages have no error.
use mathlib.Core.List.{Perm, Permᴰ, Pairwise, mem-cons_self}
use mathlib.Core.List.Permᴰ
use mathlib.Core.Path.{ap₂}
use mathlib.Core.HLevel.{¬_prop}
use mathlib.Core.Logic.{∥∥₁_elim}
use jrpc.Base.{
  ℕ, Bytes, codes, Option, none, some, Bool, true, false, not, ◌&&◌, ◌||◌, List, [], ◌∷◌, ◌++◌,
  ◌==◌, if◌then◌else◌, nat_eq, is_some, is_none, Eq-Bytes, ◌≡◌, ◌≢◌, refl, sym, ◌∙◌, arith, ==_iff,
  ap,
}
use jrpc.Errors.{Error, RawMessage, bytes_of}
use jrpc.Message.{Json, Jmessage, is_null, first_byte, is_valid_id, is_valid_version, fail}
use jrpc.Message.Read.{
  Key, key_of, Reader, read_known, read_field, read_fields, check_message, start, of_fields,
}

-- A message less the text of its error, with whether extra fields were seen.
pub record View : Type 0 where
  pub v : Bytes
  pub id : RawMessage
  pub m : Bytes
  pub p : RawMessage
  pub e : Option Error
  pub r : RawMessage
  pub failed : Bool
  pub extra : Bool

View-set : IsSet View
View-set = hlevel

abbrev not_empty : List Bytes → Bool
not_empty [] = false
not_empty (k ∷ ks) = true

abbrev view : Reader → View
view s = record {
  v = s.j.v;
  id = s.j.id;
  m = s.j.m;
  p = s.j.p;
  e = s.j.e;
  r = s.j.r;
  failed = is_some s.j.err;
  extra = not_empty s.extra;
}

not_empty-append : (ks : List Bytes) (k : Bytes) → not_empty (ks ++ k ∷ []) ≡ true
not_empty-append [] k = refl
not_empty-append (l ∷ ks) k = refl

-- The first byte of parameters that are none, an array or an object.
abbrev is_params_start : ℕ → Bool
is_params_start fb = nat_eq fb 0 || nat_eq fb b'[' || nat_eq fb b'{'

-- The keys of a Go map: no two fields have the same one.
abbrev pub Distinct : List (Bytes × Bytes) → Type 0
Distinct = Pairwise (λ f g. f.0 ≢ g.0)

key_of-eq : (k l : Bytes) → k ≢ l → key_of k ≡ key_of l → key_of k ≡ Key.extra
unfolding key_of
key_of-eq k l ne h = ground (
  arith,
  ==_iff k (codes "jsonrpc"),
  ==_iff l (codes "jsonrpc"),
  ==_iff k (codes "id"),
  ==_iff l (codes "id"),
  ==_iff k (codes "method"),
  ==_iff l (codes "method"),
  ==_iff k (codes "params"),
  ==_iff l (codes "params"),
  ==_iff k (codes "error"),
  ==_iff l (codes "error"),
  ==_iff k (codes "result"),
  ==_iff l (codes "result"),
)

module _ (js : Json) where
  -- One field's effect on the view.
  see : Key → Bytes → View → View
  see Key.jsonrpc val s = elim (js.decode_string val) [
    | some v ↦ record s { v = v }
    | none ↦ record s { failed = true }
  ]
  see Key.id val s =
      if is_valid_id (some val) then record s { id = some val } else record s { failed = true }
  see Key.method val s = elim (js.decode_string val) [
    | some m ↦ record s { m = m }
    | none ↦ record s { failed = true }
  ]
  see Key.params val s =
      let p = if is_null (some val) then s.p else some val in
      record s { p = p; failed = s.failed || not (is_params_start (first_byte (bytes_of p))) }
  see Key.error_key val s =
      let (ok, e) = js.decode_error val in record s { e = e; failed = s.failed || not ok }
  see Key.result val s = record s { r = some val }
  see Key.extra val s = record s { extra = true }

  view-read_known :
      (k : Key) (key val : Bytes) (s : Reader)
      → view (read_known js k key val s) ≡ see k val (view s)
  unfolding read_known see fail
  view-read_known Key.jsonrpc key val s = ground arith
  view-read_known Key.id key val s = ground arith
  view-read_known Key.method key val s = ground arith
  view-read_known Key.params key val s = ground arith
  view-read_known Key.error_key key val s = ground arith
  view-read_known Key.result key val s = ground arith
  view-read_known Key.extra key val s = ground (arith, not_empty-append s.extra key)

  -- Fields of different kinds, or two extra ones, may be read in either order.
  see_comm :
      (k l : Key) (a b : Bytes) (s : View)
      → (k ≡ l → k ≡ Key.extra)
      → see k a (see l b s) ≡ see l b (see k a s)
  unfolding see
  see_comm k l a b s h = ground arith

  see_all : List (Bytes × Bytes) → View → View
  see_all [] s = s
  see_all (f ∷ fs) s = see_all fs (see (key_of f.0) f.1 s)

  view-read_fields :
      (fs : List (Bytes × Bytes)) (s : Reader) → view (read_fields js fs s) ≡ see_all fs (view s)
  unfolding read_fields see_all read_field
  view-read_fields [] s = refl
  view-read_fields (f ∷ fs) s =
      view-read_fields fs (read_field js f s)
      ∙ ap (see_all fs) (view-read_known (key_of f.0) f.0 f.1 s)

  -- The checks behind the loop, on the view: the last field says whether the message has an error.
  judge : View → View
  judge s = record s {
    failed =
        s.failed
        || not (is_valid_version s.v)
        || (not (s.m == []) && (is_some s.e || is_some s.r))
        || s.extra;
  }

  -- What a message says, its error reduced to whether there is one.
  abbrev pub gist : Jmessage → View
  gist j = record {
    v = j.v;
    id = j.id;
    m = j.m;
    p = j.p;
    e = j.e;
    r = j.r;
    failed = is_some j.err;
    extra = false;
  }

  gist-check_message :
      (s : Reader) → gist (check_message js s) ≡ record (judge (view s)) { extra = false }
  unfolding check_message judge fail
  gist-check_message s = ground arith

  gist-of_fields :
      (fs : List (Bytes × Bytes))
      → gist (of_fields js fs) ≡ record (judge (see_all fs (view start))) { extra = false }
  unfolding of_fields
  gist-of_fields fs =
      gist-check_message (read_fields js fs start)
      ∙ ap (λ w. record (judge w) { extra = false }) (view-read_fields fs start)

  see_all-perm :
      {fs gs : List (Bytes × Bytes)}
      → Permᴰ fs gs
      → Distinct fs
      → (s : View) → see_all fs s ≡ see_all gs s
  unfolding see_all
  see_all-perm Permᴰ.nil d s = refl
  see_all-perm (Permᴰ.cons {a} {b} {l₁} {l₂} e p) (Pairwise.cons h d) s =
      see_all-perm p d (see (key_of a.0) a.1 s)
      ∙ ap (λ (f : Bytes × Bytes). see_all l₂ (see (key_of f.0) f.1 s)) e
  see_all-perm (Permᴰ.swap {a} {b} {a'} {b'} {l} e e') (Pairwise.cons h d) s = ap (see_all l) (
      see_comm (key_of b.0) (key_of a.0) b.1 a.1 s
        (λ same. ground (arith, key_of-eq b.0 a.0 (λ e. h b mem-cons_self (sym e))))
      ∙ ap₂ (λ (f g : Bytes × Bytes). see (key_of f.0) f.1 (see (key_of g.0) g.1 s)) e e')
  see_all-perm (Permᴰ.trans p q) d s =
      see_all-perm p d s
      ∙ see_all-perm q (Permᴰ.pairwise (λ f g. ¬_prop) (λ f g ne e. ne (sym e)) p d) s

  -- Whatever the order in which the map yields the fields of an object, the message has the same
  -- version, ID, method, parameters, error value and result, and has an error or none alike.
  pub of_fields-perm :
      {fs gs : List (Bytes × Bytes)}
      → Perm fs gs
      → Distinct fs
      → gist (of_fields js fs) ≡ gist (of_fields js gs)
  of_fields-perm {fs} {gs} p d = ∥∥₁_elim p (View-set _ _) (λ (q : Permᴰ fs gs).
      gist-of_fields fs
      ∙ ap (λ w. record (judge w) { extra = false }) (see_all-perm q d (view start))
      ∙ sym (gist-of_fields gs))

  -- The test that a field passes by itself, whatever the others are.
  abbrev pub good_field : Bytes × Bytes → Bool
  good_field (key, val) = elim (key_of key) [
    | Key.jsonrpc ↦ is_some (js.decode_string val)
    | Key.id ↦ is_valid_id (some val)
    | Key.method ↦ is_some (js.decode_string val)
    | Key.params ↦ is_null (some val) || is_params_start (first_byte val)
    | Key.error_key ↦ (js.decode_error val).0
    | Key.result ↦ true
    | Key.extra ↦ false
  ]

  abbrev pub all_good : List (Bytes × Bytes) → Bool
  all_good [] = true
  all_good (f ∷ fs) = good_field f && all_good fs

  abbrev bad : View → Bool
  bad s = s.failed || s.extra

  -- Parameters that passed their test, unless a failure is on record.
  abbrev ParamsOk : View → Type 0
  ParamsOk s = (s.failed || is_params_start (first_byte (bytes_of s.p))) ≡ true

  start-ParamsOk : ParamsOk (view start)
  unfolding first_byte
  start-ParamsOk = refl

  see-ParamsOk : (k : Key) (val : Bytes) (s : View) → ParamsOk s → ParamsOk (see k val s)
  unfolding see
  see-ParamsOk k val s h = ground arith

  bad-see :
      (f : Bytes × Bytes) (s : View)
      → ParamsOk s
      → bad (see (key_of f.0) f.1 s) ≡ (bad s || not (good_field f))
  unfolding see
  bad-see f s h = ground arith

  bad-see_all :
      (fs : List (Bytes × Bytes)) (s : View)
      → ParamsOk s
      → bad (see_all fs s) ≡ (bad s || not (all_good fs))
  unfolding see_all
  bad-see_all [] s h = ground arith
  bad-see_all (f ∷ fs) s h = ground (
    arith,
    bad-see f s h,
    see-ParamsOk (key_of f.0) f.1 s h,
    bad-see_all fs (see (key_of f.0) f.1 s),
  )

  -- A message has no error exactly when each of its fields passes its own test, its version is
  -- "2.0", and it does not have both a method and an error value or a result.
  pub of_fields-valid :
      (fs : List (Bytes × Bytes))
      → let j = of_fields js fs in
        is_none j.err ≡ (
          all_good fs
          && is_valid_version j.v
          && not (not (j.m == []) && (is_some j.e || is_some j.r)))
  unfolding judge
  of_fields-valid fs = ground (arith, gist-of_fields fs, bad-see_all fs (view start) start-ParamsOk)
