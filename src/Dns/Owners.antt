-- ===== src/Dns/Owners.antt =====
-- Owner names: the name under which an update files a record, and the name under which a question
-- finds it.
use endorium_nexus.Dns.Types.{DnsRecord}
use endorium_nexus.Dns.Types.{DnsZone, AuthorizedUpdateZone}
use endorium_nexus.Dns.Wire.{lowercase_ascii, trim_trailing_dot}
use endorium_nexus.Dns.Answer.{record_fqdn}
use endorium_nexus.Dns.Update.{canonical, relative_update_name}
use endorium_nexus.Prelude.{
  ltb, leb, ◌==◌, if◌then◌else◌, Bool-cases, length, is_empty, length-append, take-append,
  drop-append, Text, codes, text_eq, text_eq_refl, text_eq→eq, ends_with, to_lower,
  map-to_lower_idem, ℕ, ◌+◌, ◌-◌, ◌≡◌, refl, sym, ap, ◌∙◌, ◌≢◌, inl, inr, Bool, true, false, ◌&&◌,
  [], ◌∷◌, ◌++◌, map, arith,
}

to_lower_dot : (c : ℕ) → (to_lower c == b'.') ≡ (c == b'.')
unfolding to_lower
to_lower_dot c = ground arith

is_empty-map : (s : Text) → is_empty (map to_lower s) ≡ is_empty s
is_empty-map [] = refl
is_empty-map (c ∷ s) = refl

map-if :
    (b : Bool) (c : ℕ) (s : Text)
    → map to_lower (if b then [] else c ∷ s) ≡ (if b then [] else to_lower c ∷ map to_lower s)
map-if true c s = refl
map-if false c s = refl

trim_trailing_dot-map :
    (s : Text) → trim_trailing_dot (map to_lower s) ≡ map to_lower (trim_trailing_dot s)
unfolding trim_trailing_dot
trim_trailing_dot-map [] = refl
trim_trailing_dot-map (c ∷ s) = rw (
  trim_trailing_dot-map s,
  is_empty-map (trim_trailing_dot s),
  to_lower_dot c,
  map-if (c == b'.' && is_empty (trim_trailing_dot s)) c (trim_trailing_dot s),
)

trim_trailing_dot_idem : (s : Text) → trim_trailing_dot (trim_trailing_dot s) ≡ trim_trailing_dot s
unfolding trim_trailing_dot
trim_trailing_dot_idem [] = refl
trim_trailing_dot_idem (c ∷ s) = elim (Bool-cases (c == b'.' && is_empty (trim_trailing_dot s))) [
  | inl gone ↦ rw gone
  | inr kept ↦ rw (kept, trim_trailing_dot_idem s, kept)
]

-- The form in which names are compared is a fixed point.
pub canonical_idem : (s : Text) → canonical (canonical s) ≡ canonical s
unfolding canonical lowercase_ascii
canonical_idem s =
    rw (trim_trailing_dot-map (trim_trailing_dot s), trim_trailing_dot_idem s)
      (map-to_lower_idem (trim_trailing_dot s))

text_eq-false : (s t : Text) → s ≢ t → text_eq s t ≡ false
text_eq-false s t h = elim (Bool-cases (text_eq s t)) [
  | inl same ↦ absurd (h (text_eq→eq s t same))
  | inr other ↦ other
]

ends_with-append : (s t : Text) → ends_with (s ++ t) t ≡ true
unfolding ends_with
ends_with-append s t =
    let size : length (s ++ t) - length t ≡ length s = omega (arith, length-append s t) in
    let fits : leb (length t) (length (s ++ t)) ≡ true = ground (arith, length-append s t) in
    rw (size, fits, drop-append s t) (text_eq_refl t)

module _ (zone : DnsZone) (target : AuthorizedUpdateZone) (fqdn host : Text)
    (stored : target.storage_zone_name ≡ canonical zone.name)
    (named : is_empty (canonical zone.name) ≡ false)
    (below : canonical fqdn ≡ host ++ b'.' ∷ canonical zone.name) where
  -- A name below the zone is filed under what stands in front of the zone's name.
  pub relative_update_name-below : relative_update_name fqdn target ≡ host
  unfolding relative_update_name
  relative_update_name-below =
      let zone_name : Text = canonical zone.name in
      let name : Text = host ++ b'.' ∷ zone_name in
      let size : length name ≡ length host + 1 + length zone_name =
        omega (arith, length-append host (b'.' ∷ zone_name)) in
      let apart : text_eq name zone_name ≡ false =
        text_eq-false name zone_name
          (λ e. absurd (omega (arith, ap (λ (t : Text). length t) e, size))) in
      let longer : ltb (length zone_name) (length name) ≡ true = ground (arith, size) in
      let cut : length name - length zone_name - 1 ≡ length host = omega (arith, size) in
      rw
        (
          stored,
          canonical_idem zone.name,
          below,
          apart,
          named,
          longer,
          ends_with-append host (b'.' ∷ zone_name),
          cut,
        )
        (take-append host (b'.' ∷ zone_name))

  -- A record that an update files for a name below a zone with a name is found by questions for that
  -- name. The part in front of the zone's name is in compared form (lower case, no dot at its end), is
  -- neither empty nor `@` nor the zone's name, and does not end in a dot and the zone's name.
  pub record_fqdn-relative_update_name :
      (r : DnsRecord)
      → canonical host ≡ host
      → is_empty host ≡ false
      → text_eq host (codes "@") ≡ false
      → text_eq host (canonical zone.name) ≡ false
      → ends_with host (b'.' ∷ canonical zone.name) ≡ false
      → record_fqdn zone (record r { name = relative_update_name fqdn target }) ≡ canonical fqdn
  unfolding record_fqdn
  record_fqdn-relative_update_name r form full not_at not_zone not_below =
      rw (relative_update_name-below, not_at, full, form, not_zone, not_below, below) (ground arith)

  -- For a name that is the zone's name twice, such as `a.b.a.b` in the zone `a.b`, it is not: the
  -- record is served at the zone's own name, and no longer under the name it was filed for. The zone's
  -- name is neither empty nor `@`.
  pub record_fqdn_collides :
      (r : DnsRecord)
      → host ≡ canonical zone.name
      → text_eq host (codes "@") ≡ false
      → (record_fqdn zone (record r { name = relative_update_name fqdn target })
          ≡ canonical zone.name)
        × (canonical fqdn ≢ canonical zone.name)
  unfolding record_fqdn
  record_fqdn_collides r twice not_at =
      let size : length (host ++ b'.' ∷ canonical zone.name)
          ≡ length host + 1 + length (canonical zone.name) =
        omega (arith, length-append host (b'.' ∷ canonical zone.name)) in
      (
        rw (
          relative_update_name-below,
          not_at,
          twice,
          canonical_idem zone.name,
          named,
          text_eq_refl (canonical zone.name),
        ),
        λ e. omega (arith, ap (λ (t : Text). length t) (sym below ∙ e), size),
      )
