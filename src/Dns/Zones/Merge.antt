-- ===== src/Dns/Zones/Merge.antt =====
-- Merging the domain's own zone into the stored zones: nothing stored is lost, everything is there
-- afterwards, and a second merge changes nothing.
use endorium_nexus.Dns.Types.{DnsRecord, DnsZone}
use endorium_nexus.Dns.Wire.{lowercase_ascii}
use endorium_nexus.Dns.Update.{canonical}
use endorium_nexus.Dns.Zones.{
  same_record, merge_records, merge_zone, merge_active_directory_dns_zone,
}
use endorium_nexus.Prelude.{
  if◌then◌else◌, Bool-cases, any, All, text_eq, text_eq_refl, ℕ, ◌≤◌, max, ◌≡◌, refl, sym, ◌∙◌, ◌⊎◌,
  inl, inr, Bool, true, List, [], ◌∷◌, ◌++◌, append_assoc, append-nil, arith,
}

any-append_left {ℓ} :
    {A : Type ℓ} (p : A → Bool) (xs ys : List A) → any p xs ≡ true → any p (xs ++ ys) ≡ true
unfolding any
any-append_left p [] ys h = cc
any-append_left p (x ∷ xs) ys h = ground (arith, any-append_left p xs ys)

any-append_last {ℓ} :
    {A : Type ℓ} (p : A → Bool) (xs : List A) (y : A) → p y ≡ true → any p (xs ++ y ∷ []) ≡ true
unfolding any
any-append_last p [] y h = ground arith
any-append_last p (x ∷ xs) y h = ground (arith, any-append_last p xs y h)

same_record_refl : (r : DnsRecord) → same_record r r ≡ true
unfolding same_record
same_record_refl r = ground (
  arith,
  text_eq_refl (canonical r.name),
  text_eq_refl (lowercase_ascii r.type),
  text_eq_refl (canonical r.value),
  text_eq_refl (lowercase_ascii r.dns_class),
  text_eq_refl r.flags,
)

abbrev Holds : List DnsRecord → DnsRecord → Type 0
Holds stored r = any (same_record r) stored ≡ true

abbrev pub merge_step : List DnsRecord → DnsRecord → List DnsRecord
merge_step stored r = if any (same_record r) stored then stored else stored ++ r ∷ []

-- A merge only adds at the end.
pub merge_records-prefix :
    (stored rs : List DnsRecord)
    → (added : List DnsRecord) × (merge_records stored rs ≡ stored ++ added)
unfolding merge_records
merge_records-prefix stored [] = ([], sym (append-nil stored))
merge_records-prefix stored (r ∷ rs) = elim (Bool-cases (any (same_record r) stored)) [
  | inl there ↦ rw there (merge_records-prefix stored rs)
  | inr new ↦ rw new (behind (merge_records-prefix (stored ++ r ∷ []) rs))
]
  where
    behind :
        (added : List DnsRecord) × (merge_records (stored ++ r ∷ []) rs
            ≡ (stored ++ r ∷ []) ++ added)
        → (added : List DnsRecord) × (merge_records (stored ++ r ∷ []) rs ≡ stored ++ added)
    behind (added, e) = (r ∷ added, e ∙ append_assoc stored (r ∷ []) added)

merge_step-Holds : (stored : List DnsRecord) (r : DnsRecord) → Holds (merge_step stored r) r
merge_step-Holds stored r = elim (Bool-cases (any (same_record r) stored)) [
  | inl there ↦ rw there there
  | inr new ↦ rw new (any-append_last (same_record r) stored r (same_record_refl r))
]

Holds-merge_records :
    (stored rs : List DnsRecord) (r : DnsRecord)
    → Holds stored r
    → Holds (merge_records stored rs) r
Holds-merge_records stored rs r h =
    let (added, e) = merge_records-prefix stored rs in
    rw e (any-append_left (same_record r) stored added h)

-- Everything that was merged is there.
pub merge_records-Holds : (stored rs : List DnsRecord) → All (Holds (merge_records stored rs)) rs
unfolding merge_records
merge_records-Holds stored [] = tt
merge_records-Holds stored (r ∷ rs) = (
  Holds-merge_records (merge_step stored r) rs r (merge_step-Holds stored r),
  merge_records-Holds (merge_step stored r) rs,
)

-- Records that are all there are merged without a change.
merge_records-none :
    (stored rs : List DnsRecord) → All (Holds stored) rs → merge_records stored rs ≡ stored
unfolding merge_records
merge_records-none stored [] h = refl
merge_records-none stored (r ∷ rs) (there, h) = rw there (merge_records-none stored rs h)

max_idem : (a b : ℕ) → max (max a b) b ≡ max a b
max_idem a b = omega arith

merge_zone_idem :
    (zone ad_zone : DnsZone)
    → merge_zone (merge_zone zone ad_zone) ad_zone ≡ merge_zone zone ad_zone
unfolding merge_zone
merge_zone_idem zone ad_zone = rw (
  max_idem zone.serial ad_zone.serial,
  merge_records-none (merge_records zone.records ad_zone.records) ad_zone.records
      (merge_records-Holds zone.records ad_zone.records),
)

Holds-behind : (front rs : List DnsRecord) → All (Holds (front ++ rs)) rs
Holds-behind front [] = tt
Holds-behind front (r ∷ rs) = (
  rw (← append_assoc front (r ∷ []) rs) (
      any-append_left (same_record r) (front ++ r ∷ []) rs
        (any-append_last (same_record r) front r (same_record_refl r))),
  rw (append_assoc front (r ∷ []) rs) at (Holds-behind (front ++ r ∷ []) rs),
)

max_self : (a : ℕ) → max a a ≡ a
max_self a = omega arith

merge_zone_self : (zone : DnsZone) → merge_zone zone zone ≡ zone
unfolding merge_zone
merge_zone_self zone = λ i. record {
  name = zone.name;
  serial = max_self zone.serial i;
  records = merge_records-none zone.records zone.records (Holds-behind [] zone.records) i;
}

name-merge_zone : (zone ad_zone : DnsZone) → (merge_zone zone ad_zone).name ≡ zone.name
unfolding merge_zone
name-merge_zone zone ad_zone = refl

-- The merge that every start of the service makes settles after the first: merging the same zone
-- once more changes nothing, whatever zones are stored.
pub merge_active_directory_dns_zone_idem :
    (zones : List DnsZone) (ad_zone : DnsZone)
    → merge_active_directory_dns_zone (merge_active_directory_dns_zone zones ad_zone) ad_zone
      ≡ merge_active_directory_dns_zone zones ad_zone
unfolding merge_active_directory_dns_zone merge_zone
merge_active_directory_dns_zone_idem [] ad_zone =
    rw (text_eq_refl (canonical ad_zone.name), merge_zone_self ad_zone)
merge_active_directory_dns_zone_idem (zone ∷ zones) ad_zone =
    elim (Bool-cases (text_eq (canonical zone.name) (canonical ad_zone.name))) [
      | inl same ↦ rw (same, name-merge_zone zone ad_zone, same, merge_zone_idem zone ad_zone)
      | inr other ↦ rw (other, other, merge_active_directory_dns_zone_idem zones ad_zone)
    ]

-- What a zone list gains by a merge, zone by zone: every stored zone is still there under its name,
-- at its place, with its records as a prefix and a serial that has not gone down.
abbrev pub Grows : List DnsZone → List DnsZone → Type 0
Grows [] after = Unit
Grows (zone ∷ zones) [] = ⊥
Grows (zone ∷ zones) (z ∷ after) =
    ((z.name ≡ zone.name)
      × (zone.serial ≤ z.serial)
      × ((added : List DnsRecord) × (z.records ≡ zone.records ++ added)))
    × Grows zones after

-- A record says the same as another: names and values compared without their trailing dot and
-- letter case, types and classes without letter case. The TTL may differ.
pub record SaysSame (c r : DnsRecord) : Type 0 where
  pub same_name : canonical c.name ≡ canonical r.name
  pub same_type : lowercase_ascii c.type ≡ lowercase_ascii r.type
  pub same_value : canonical c.value ≡ canonical r.value
  pub same_class : lowercase_ascii c.dns_class ≡ lowercase_ascii r.dns_class
  pub same_priority : c.priority ≡ r.priority
  pub same_weight : c.weight ≡ r.weight
  pub same_port : c.port ≡ r.port
  pub same_flags : c.flags ≡ r.flags

-- A record that says the same stands somewhere among the records.
pub record IsPresent (stored : List DnsRecord) (r : DnsRecord) : Type 0 where
  pub found : DnsRecord
  pub front : List DnsRecord
  pub back : List DnsRecord
  pub stands : stored ≡ front ++ found ∷ back
  pub says_same : SaysSame found r

-- The zone of that name is there after a merge, and for every record that was merged it has one
-- that says the same.
abbrev pub HasZone : List DnsZone → DnsZone → Type 0
HasZone [] ad_zone = ⊥
HasZone (zone ∷ zones) ad_zone =
    ((canonical zone.name ≡ canonical ad_zone.name) × All (IsPresent zone.records) ad_zone.records)
    ⊎ HasZone zones ad_zone
