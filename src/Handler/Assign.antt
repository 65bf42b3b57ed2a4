-- ===== src/Handler/Assign.antt =====
-- `Map` and `ServiceMap` of handler/handler.go. A handler is a value of `H`; neither handlers
-- nor assigners are nil. The order in which a Go map gives its keys does not matter, as the names are
-- sorted.
pub mod Names
use jrpc.Base.{
  Bytes, codes, Option, none, some, Bool, true, false, List, [], ◌∷◌, ◌++◌, map, ◌==◌, ◌||◌,
  if◌then◌else◌, Eq-Bytes,
}
use jrpc.Base.GoMap.{GoMap, get}
use jrpc.Strings.{cut, sort}

-- An assigner: a `Map`, a `ServiceMap`, or another one, with its names if it is a `Namer`.
mutual
  pub data Assigner (H : Type 0) : Type 0 where
    handlers : GoMap Bytes H → Assigner H
    services : Services H → Assigner H
    custom : (Bytes → Option H) → Option (List Bytes) → Assigner H

  pub data Services (H : Type 0) : Type 0 where
    nil : Services H
    cons : Bytes → Assigner H → Services H → Services H

-- `Assign`
unfoldable mutual
  unfolding get cut

  pub assign : {H : Type 0} → Assigner H → Bytes → Option H
  assign (Assigner.handlers m) method = get method m
  assign (Assigner.services s) method = elim (cut 46 method) [
    | none ↦ none
    | some (svc, rest) ↦ assign_in s svc rest
  ]
  assign (Assigner.custom f ns) method = f method

  -- `m[parts[0]]`, and `Assign` of what it is.
  pub assign_in : {H : Type 0} → Services H → Bytes → Bytes → Option H
  assign_in Services.nil svc method = none
  assign_in (Services.cons name a s) svc method =
      let this = assign a method in
      let others = assign_in s svc method in if name == svc then this else others

-- The keys of a Go map.
abbrev pub keys : {V : Type 0} → GoMap Bytes V → List Bytes
keys [] = []
keys ((k, v) ∷ m) = k ∷ keys m

abbrev pub qualified : Bytes → Bytes → Bytes
qualified svc name = svc ++ 46 ∷ name

-- `Names`, for an assigner that is a `Namer`.
unfoldable mutual
  unfolding sort

  pub names : {H : Type 0} → Assigner H → Option (List Bytes)
  names (Assigner.handlers m) = some (sort (keys m))
  names (Assigner.services s) = some (sort (all_names s))
  names (Assigner.custom f ns) = ns

  pub all_names : {H : Type 0} → Services H → List Bytes
  all_names Services.nil = []
  all_names (Services.cons svc a s) = elim (names a) [
    | none ↦ qualified svc (codes "*") ∷ all_names s
    | some l ↦ map (qualified svc) l ++ all_names s
  ]
