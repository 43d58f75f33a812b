-- ===== src/Ldap/Members/Chain.antt =====
-- The walk over groups decides membership through any number of groups, and ends.
use endorium_nexus.Ldap.Members.{ldap_attribute_matches}
use endorium_nexus.Ldap.Members.{object_attribute_transitive_matches}
use endorium_nexus.Ldap.Objects.{
  is_group_object, constructed_member_of_values, constructed_member_values, LdapObject,
  equals_ascii_case, find_object_by_dn, contains_visited_dn,
}
use endorium_nexus.Ldap.Members.{
  member_of_chain_contains, member_chain_contains, walk_neighbours, walk, contained,
}
use endorium_nexus.Ldap.Members.Seen.{
  find_same, find_own, seen_step, Grows, Grows-push, seen_pushed, unseen, unseen-le-length,
  unseen_falls, unseen-push,
}
use endorium_nexus.Prelude.{
  if◌then◌else◌, Bool-cases, Option-cases, length, any, Outcome, ok, ◌>>=◌, Returns, returned,
  Returns-bind, Returns-if, Text, codes, ℕ, zero, suc, ◌<◌, ◌≡◌, refl, sym, ◌∙◌, ◌↔◌, ◌⊎◌, inl, inr,
  Bool, true, false, Option, none, some, List, [], ◌∷◌, ◌++◌, arith,
}

abbrev pub Among : Text → List Text → Type 0
Among dn [] = ⊥
Among dn (x ∷ xs) = (x ≡ dn) ⊎ Among dn xs

nothing_seen : (dn : Text) → contains_visited_dn [] dn ≡ false
unfolding contains_visited_dn any
nothing_seen dn = refl

module _ (accepts : LdapObject → Bool) (neighbours : LdapObject → List Text)
    (objects : List LdapObject) (target : Text) where
  -- The object leads to the target: one of its neighbours is the target's name, or names a stored
  -- object that leads there.
  pub data Leads : LdapObject → Type 0 where
    direct :
        (o : LdapObject) (dn : Text)
        → accepts o ≡ true
        → Among dn (neighbours o)
        → equals_ascii_case dn target ≡ true
        → Leads o
    through :
        (o : LdapObject) (dn : Text) (g : LdapObject)
        → accepts o ≡ true
        → Among dn (neighbours o)
        → find_object_by_dn objects dn ≡ some g
        → Leads g
        → Leads o

  -- One of the names is the target or leads to it.
  abbrev Hit : List Text → Type 0
  Hit dns =
      (dn : Text) × Among dn dns
      × ((equals_ascii_case dn target ≡ true)
          ⊎ ((g : LdapObject) × (find_object_by_dn objects dn ≡ some g) × Leads g))

  -- None of the names is the target, and what they name has been seen.
  abbrev Done : List Text → List Text → Type 0
  Done seen dns =
      (dn : Text)
      → Among dn dns
      → (equals_ascii_case dn target ≡ false)
        × ((g : LdapObject)
            → find_object_by_dn objects dn ≡ some g
            → accepts g ≡ true
            → contains_visited_dn seen g.dn ≡ true)

  -- What was seen since is done with.
  abbrev Closed : List Text → List Text → Type 0
  Closed seen later =
      (x : LdapObject)
      → find_object_by_dn objects x.dn ≡ some x
      → contains_visited_dn later x.dn ≡ true
      → contains_visited_dn seen x.dn ≡ false
      → Done later (neighbours x)

  record Misses (seen later : List Text) : Type 0 where
    grows : Grows seen later
    closed : Closed seen later

  -- The two ways in which a walk at an object ends.
  abbrev AtObject : LdapObject → List Text → Bool × List Text → Type 0
  AtObject o seen r =
      ((r.0 ≡ true) × Leads o)
      ⊎ ((r.0 ≡ false) × Misses seen r.1 × (accepts o ≡ true → contains_visited_dn r.1 o.dn ≡ true))

  abbrev AtNames : List Text → List Text → Bool × List Text → Type 0
  AtNames dns seen r = ((r.0 ≡ true) × Hit dns) ⊎ ((r.0 ≡ false) × Misses seen r.1 × Done r.1 dns)

  impossible : {A : Type 0} → true ≡ false → A
  impossible h = cc

  Misses-refl : (seen : List Text) → Misses seen seen
  Misses-refl seen = record { grows = λ x h. h; closed = λ x own h k. impossible (sym h ∙ k) }

  Done-Grows : (a b : List Text) (dns : List Text) → Grows a b → Done a dns → Done b dns
  Done-Grows a b dns h d dn m = ((d dn m).0, λ g found yes_g. h g.dn ((d dn m).1 g found yes_g))

  Misses-trans : (a b c : List Text) → Misses a b → Misses b c → Misses a c
  Misses-trans a b c ab bc = record {
    grows = λ x h. bc.grows x (ab.grows x h);
    closed = λ x own last first. elim (Bool-cases (contains_visited_dn b x.dn)) [
      | inl e ↦ Done-Grows b c (neighbours x) bc.grows (ab.closed x own e first)
      | inr e ↦ bc.closed x own last e
    ];
  }

  Done-cons :
      (seen : List Text) (dn : Text) (dns : List Text)
      → equals_ascii_case dn target ≡ false
      → ((g : LdapObject)
          → find_object_by_dn objects dn ≡ some g
          → accepts g ≡ true
          → contains_visited_dn seen g.dn ≡ true)
      → Done seen dns
      → Done seen (dn ∷ dns)
  Done-cons seen dn dns e f d x (inl same) = rw (← same) (e, f)
  Done-cons seen dn dns e f d x (inr m) = d x m

  Hit-cons : (dn : Text) (dns : List Text) → Hit dns → Hit (dn ∷ dns)
  Hit-cons dn dns (x, m, h) = (x, inr m, h)

  Hit-Leads : (o : LdapObject) → accepts o ≡ true → Hit (neighbours o) → Leads o
  Hit-Leads o a (dn, m, inl e) = direct o dn a m e
  Hit-Leads o a (dn, m, inr (g, found, leads)) = through o dn g a m found leads

  module _ (enter : LdapObject → List Text → Outcome (Bool × List Text)) (dn : Text)
      (dns seen : List Text) where
    names_target :
        equals_ascii_case dn target ≡ true
        → walk_neighbours accepts neighbours objects target enter (dn ∷ dns) seen ≡ ok (true, seen)
    unfolding walk_neighbours
    names_target e = rw e

    names_none :
        equals_ascii_case dn target ≡ false
        → find_object_by_dn objects dn ≡ none
        → walk_neighbours accepts neighbours objects target enter (dn ∷ dns) seen
          ≡ walk_neighbours accepts neighbours objects target enter dns seen
    unfolding walk_neighbours
    names_none e f = ground (arith, e, f)

    names_some :
        (g : LdapObject)
        → equals_ascii_case dn target ≡ false
        → find_object_by_dn objects dn ≡ some g
        → walk_neighbours accepts neighbours objects target enter (dn ∷ dns) seen ≡ (
            enter g seen >>= λ (found, later).
            if found
            then ok (true, later)
            else walk_neighbours accepts neighbours objects target enter dns later)
    unfolding walk_neighbours
    names_some g e f = ground (arith, e, f)

  -- The loop at one name, from the loop at the others.
  module _ (rounds : ℕ) (dn : Text) (dns seen : List Text)
      (rest : (later : List Text)
        → unseen later objects < rounds
        → Returns (AtNames dns later) (
            walk_neighbours accepts neighbours objects target
              (walk accepts neighbours objects target rounds)
              dns
              later))
      (bound : unseen seen objects < rounds) where
    extend :
        (later : List Text) (m : Outcome (Bool × List Text))
        → Misses seen later
        → equals_ascii_case dn target ≡ false
        → ((g : LdapObject)
            → find_object_by_dn objects dn ≡ some g
            → accepts g ≡ true
            → contains_visited_dn later g.dn ≡ true)
        → Returns (AtNames dns later) m
        → Returns (AtNames (dn ∷ dns) seen) m
    extend later _ misses e f (returned {a = (found, last)} (inl (yes_found, hit))) =
        returned {a = (found, last)} (inl (yes_found, Hit-cons dn dns hit))
    extend later _ misses e f (returned {a = (found, last)} (inr (missed, more, done))) =
        returned {a = (found, last)} (
          inr (
            missed,
            Misses-trans seen later last misses more,
            Done-cons last dn dns e (λ g at a. more.grows g.dn (f g at a)) done,
          ))

    after :
        (g : LdapObject) (m : Outcome (Bool × List Text))
        → equals_ascii_case dn target ≡ false
        → find_object_by_dn objects dn ≡ some g
        → Returns (AtObject g seen) m
        → Returns (AtNames (dn ∷ dns) seen) (
            m >>= λ (found, later).
            if found
            then ok (true, later)
            else walk_neighbours accepts neighbours objects target
                (walk accepts neighbours objects target rounds)
                dns
                later)
    after g _ e f (returned {a = (true, later)} (inl (_, leads))) =
        returned {a = (true, later)} (inl (refl, (dn, inl refl, inr (g, f, leads))))
    after g _ e f (returned {a = (true, later)} (inr (wrong, _, _))) = impossible wrong
    after g _ e f (returned {a = (false, later)} (inl (wrong, _))) = impossible (sym wrong)
    after g _ e f (returned {a = (false, later)} (inr (_, misses, entered))) =
        extend later _ misses e (λ h at a. rw (same h at) (entered (rw (← same h at) a)))
          (rest later (omega (arith, unseen_falls seen later objects misses.grows)))
      where
        same : (h : LdapObject) → find_object_by_dn objects dn ≡ some h → h ≡ g
        same h at = let both : some h ≡ some g = sym at ∙ f in cc

  names_lem :
      (rounds : ℕ)
      → ((g : LdapObject) (seen : List Text)
          → find_object_by_dn objects g.dn ≡ some g
          → unseen seen objects < rounds
          → Returns (AtObject g seen) (walk accepts neighbours objects target rounds g seen))
      → (dns seen : List Text) → unseen seen objects < rounds
      → Returns (AtNames dns seen) (
          walk_neighbours accepts neighbours objects target
            (walk accepts neighbours objects target rounds)
            dns
            seen)
  unfolding walk_neighbours
  names_lem rounds enter [] seen bound =
      returned {a = (false, seen)} (inr (refl, Misses-refl seen, λ dn m. elim m [ ]))
  names_lem rounds enter (dn ∷ dns) seen bound =
      let rest = names_lem rounds enter dns in
      elim (Bool-cases (equals_ascii_case dn target)) [
        | inl e ↦
            rw (names_target _ dn dns seen e)
              (returned {a = (true, seen)} (inl (refl, (dn, inl refl, inl e))))
        | inr e ↦ elim (Option-cases (find_object_by_dn objects dn)) [
          | inl f ↦ rw (names_none _ dn dns seen e f) (
              extend rounds dn dns seen rest bound seen _ (Misses-refl seen) e
                (λ g at a. impossible_none g (sym f ∙ at)) (rest seen bound))
          | inr (g, f) ↦ rw (names_some _ dn dns seen g e f) (
              after rounds dn dns seen rest bound g _ e f
                (enter g seen (find_own objects dn g f) bound))
        ]
      ]
    where
      impossible_none : {A : Type 0} (g : LdapObject) → none ≡ some g → A
      impossible_none g h = cc

  module _ (rounds : ℕ) (o : LdapObject) (seen : List Text) where
    walk_refused :
        accepts o ≡ false
        → walk accepts neighbours objects target (suc rounds) o seen ≡ ok (false, seen)
    unfolding walk
    walk_refused e = ground (arith, e)

    walk_seen :
        contains_visited_dn seen o.dn ≡ true
        → walk accepts neighbours objects target (suc rounds) o seen ≡ ok (false, seen)
    unfolding walk
    walk_seen e = ground (arith, e)

    walk_entered :
        accepts o ≡ true
        → contains_visited_dn seen o.dn ≡ false
        → walk accepts neighbours objects target (suc rounds) o seen
          ≡ walk_neighbours accepts neighbours objects target
              (walk accepts neighbours objects target rounds)
              (neighbours o)
              (seen ++ o.dn ∷ [])
    unfolding walk
    walk_entered a e = ground (arith, a, e)

  -- What the loop says of the neighbours, said of the object.
  module _ (o : LdapObject) (seen : List Text) (own : find_object_by_dn objects o.dn ≡ some o)
      (a : accepts o ≡ true) where
    closed_here :
        (later : List Text)
        → Misses (seen ++ o.dn ∷ []) later
        → Done later (neighbours o)
        → Misses seen later
    closed_here later misses done = record {
      grows = λ x h. misses.grows x (Grows-push seen o.dn x h);
      closed = λ x mine last first.
          elim (Bool-cases (contains_visited_dn (seen ++ o.dn ∷ []) x.dn)) [
            | inl e ↦
                let equal : equals_ascii_case o.dn x.dn ≡ true =
                  ground (arith, seen_step seen o.dn x.dn, e, first) in
                let both : some o ≡ some x = sym own ∙ find_same objects o.dn x.dn equal ∙ mine in
                let same : o ≡ x = cc in rw (← same) done
            | inr e ↦ misses.closed x mine last e
          ];
    }

    to_object :
        (m : Outcome (Bool × List Text))
        → Returns (AtNames (neighbours o) (seen ++ o.dn ∷ [])) m
        → Returns (AtObject o seen) m
    to_object _ (returned {a = (found, later)} (inl (hit_found, hit))) =
        returned {a = (found, later)} (inl (hit_found, Hit-Leads o a hit))
    to_object _ (returned {a = (found, later)} (inr (missed, misses, done))) =
        returned {a = (found, later)} (
          inr (
            missed,
            closed_here later misses done,
            λ again. misses.grows o.dn (seen_pushed seen o.dn),
          ))

  walk_lem :
      (rounds : ℕ) (o : LdapObject) (seen : List Text)
      → find_object_by_dn objects o.dn ≡ some o
      → unseen seen objects < rounds
      → Returns (AtObject o seen) (walk accepts neighbours objects target rounds o seen)
  walk_lem zero o seen own bound = elim bound [ ]
  walk_lem (suc rounds) o seen own bound = elim (Bool-cases (accepts o)) [
    | inr e ↦
        rw (walk_refused rounds o seen e)
          (returned {a = (false, seen)} (inr (refl, Misses-refl seen, λ a. impossible (sym a ∙ e))))
    | inl a ↦ elim (Bool-cases (contains_visited_dn seen o.dn)) [
      | inl e ↦
          rw (walk_seen rounds o seen e)
            (returned {a = (false, seen)} (inr (refl, Misses-refl seen, λ again. e)))
      | inr e ↦ rw (walk_entered rounds o seen a e) (
          to_object o seen own a _ (
            names_lem rounds (walk_lem rounds) (neighbours o) (seen ++ o.dn ∷ [])
              (omega (arith, unseen-push seen objects o.dn o own e))))
    ]
  ]

  -- With nothing seen before, what was seen leads nowhere.
  never :
      (seen : List Text)
      → Misses [] seen
      → (x : LdapObject) → find_object_by_dn objects x.dn ≡ some x
      → contains_visited_dn seen x.dn ≡ true
      → Leads x
      → ⊥
  unfolding contains_visited_dn any
  never seen misses _ own in_seen (direct x dn a m e) =
      impossible (sym e ∙ (misses.closed x own in_seen refl dn m).0)
  never seen misses _ own in_seen (through x dn g a m f leads) =
      never seen misses g (find_own objects dn g f)
        ((misses.closed x own in_seen refl dn m).1 g f (accepted g leads)) leads
    where
      accepted : (g : LdapObject) → Leads g → accepts g ≡ true
      accepted _ (direct g dn a m e) = a
      accepted _ (through g dn h a m f leads) = a

  -- The walk from a stored object returns, and says exactly whether the object leads to the target.
  pub contained_lem :
      (o : LdapObject)
      → find_object_by_dn objects o.dn ≡ some o
      → (found : Bool) × (contained accepts neighbours objects target o ≡ ok found)
        × ((found ≡ true) ↔ Leads o)
  unfolding contained
  contained_lem o own =
      decide _ (
        walk_lem (suc (suc (length objects))) o [] own (omega (arith, unseen-le-length [] objects)))
    where
      accepted : (g : LdapObject) → Leads g → accepts g ≡ true
      accepted _ (direct g dn a m e) = a
      accepted _ (through g dn h a m f leads) = a

      decide :
          (m : Outcome (Bool × List Text))
          → Returns (AtObject o []) m
          → (found : Bool) × ((m >>= λ (found, seen). ok found) ≡ ok found)
            × ((found ≡ true) ↔ Leads o)
      decide _ (returned {a = (found, seen)} (inl (e, leads))) = (found, refl, (λ h. leads, λ h. e))
      decide _ (returned {a = (found, seen)} (inr (e, misses, entered))) = (
        found,
        refl,
        (
          λ h. impossible (sym h ∙ e),
          λ leads. absurd (never seen misses o own (entered (accepted o leads)) leads),
        ),
      )

module _ (accepts : LdapObject → Bool) (neighbours : LdapObject → List Text)
    (objects : List LdapObject) (target : Text) where
  to_found :
      (P : Bool × List Text → Type 0) (m : Outcome (Bool × List Text))
      → Returns P m
      → Returns (λ _. Unit {0}) (m >>= λ (found, seen). ok found)
  to_found P m h = Returns-bind m _ h λ r _. returned tt

  -- The walk returns from any object, stored or not.
  pub contained-Returns :
      (o : LdapObject) → Returns (λ _. Unit {0}) (contained accepts neighbours objects target o)
  unfolding contained
  contained-Returns o =
      let rounds : ℕ = suc (length objects) in
      elim (Bool-cases (accepts o)) [
        | inr e ↦ rw (walk_refused accepts neighbours objects target rounds o [] e) (returned tt)
        | inl a ↦
            rw (walk_entered accepts neighbours objects target rounds o [] a (nothing_seen o.dn)) (
              to_found _ _ (
                names_lem accepts neighbours objects target rounds
                  (walk_lem accepts neighbours objects target rounds) (neighbours o) (o.dn ∷ [])
                  (omega (arith, unseen-le-length (o.dn ∷ []) objects))))
      ]

pub transitive-Returns :
    (object : LdapObject) (attribute expected : Text) (all_objects : Option (List LdapObject))
    → Returns
        (λ _. Unit {0})
        (object_attribute_transitive_matches object attribute expected all_objects)
unfolding object_attribute_transitive_matches member_of_chain_contains member_chain_contains
transitive-Returns object attribute expected none = returned tt
transitive-Returns object attribute expected (some objects) =
    Returns-if (ldap_attribute_matches attribute (codes "memberOf")) _ _
      (λ _. contained-Returns _ _ objects expected object)
      λ _.
        Returns-if (ldap_attribute_matches attribute (codes "member")) _ _
          (λ _. contained-Returns _ _ objects expected object) λ _. returned tt

abbrev pub Decides : Outcome Bool → Type 0 → Type 0
Decides m P = (found : Bool) × (m ≡ ok found) × ((found ≡ true) ↔ P)

-- For an object that is stored under its name, both walks over groups return. The one over memberOf
-- says exactly whether the target is among the object's groups, their groups, and so on; the one
-- over member exactly whether the target is among the group's members, the members of the groups
-- among them, and so on.
pub chains-Decides :
    (objects : List LdapObject) (target : Text) (o : LdapObject)
    → find_object_by_dn objects o.dn ≡ some o
    → Decides
        (member_of_chain_contains o target objects)
        (Leads (λ o. true) (λ o. constructed_member_of_values o (some objects)) objects target o)
      × Decides
          (member_chain_contains o target objects)
          (Leads is_group_object (λ o. constructed_member_values o (some objects)) objects target o)
unfolding member_of_chain_contains member_chain_contains
chains-Decides objects target o own =
    (contained_lem _ _ objects target o own, contained_lem _ _ objects target o own)
