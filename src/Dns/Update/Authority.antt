-- ===== src/Dns/Update/Authority.antt =====
-- Which zones a dynamic update may change.
use endorium_nexus.Dns.Types.{
  DnsZone, DnsQuestion, AuthorizedUpdateZone, DnsDynamicUpdateRecord, DnsDynamicUpdate,
  dns_opcode_update, dns_class_any, dns_class_none, dns_class_in,
}
use endorium_nexus.Dns.Wire.{dns_opcode, read_dns_name, parse_question}
use endorium_nexus.Dns.Wire.Safety.{
  read_u16-Ensures, read_u32-Ensures, read_dns_name-Ensures, parse_question-Ensures,
}
use endorium_nexus.Dns.Update.{
  canonical, zone_exists_for_update, authorized_update_zone, update_record, push_back, type_name,
  skip_dns_records, parse_update_records, is_update_zone, parse_dns_dynamic_update,
}
use endorium_nexus.Dns.Update.Safety.{parse_update_rdata-Ends, skip_dns_records-Ensures}
use endorium_nexus.Prelude.{
  ltb, ◌==◌, length, is_empty, any, All, All-append, Ensures, returns, Ensures-bind,
  Ensures-attempt, Ensures-if, Text, text_eq, text_eq_refl, ℕ, zero, suc, ◌+◌, ◌≡◌, refl, true,
  false, not, ◌&&◌, ◌||◌, Option, none, some, List, [], ◌∷◌, arith,
}

-- The parser authorises an update exactly when the responder finds the zone.
pub authorized_update_zone-authorized :
    (question : DnsQuestion) (zones : List DnsZone)
    → (authorized_update_zone question zones).authorized ≡ zone_exists_for_update question zones
unfolding authorized_update_zone zone_exists_for_update any
authorized_update_zone-authorized question [] = refl
authorized_update_zone-authorized question (zone ∷ zones) =
    ground (arith, authorized_update_zone-authorized question zones)

-- A text is the compared form of the name of a stored zone.
abbrev pub IsStored : List DnsZone → Text → Type 0
IsStored zones name = any (λ zone. text_eq name (canonical zone.name)) zones ≡ true

authorized_update_zone-IsStored :
    (question : DnsQuestion) (zones : List DnsZone)
    → (authorized_update_zone question zones).authorized ≡ true
    → IsStored zones (authorized_update_zone question zones).storage_zone_name
unfolding authorized_update_zone any
authorized_update_zone-IsStored question [] h = cc
authorized_update_zone-IsStored question (zone ∷ zones) h =
    ground
      (arith, text_eq_refl (canonical zone.name), authorized_update_zone-IsStored question zones)

abbrev Filed : AuthorizedUpdateZone → Option DnsDynamicUpdateRecord → Type 0
Filed zone none = Unit
Filed zone (some r) = r.zone_name ≡ zone.storage_zone_name

abbrev pub AllFiled : AuthorizedUpdateZone → List DnsDynamicUpdateRecord → Type 0
AllFiled zone records = All (λ r. r.zone_name ≡ zone.storage_zone_name) records

update_record-Filed :
    (query : List ℕ) (zone : AuthorizedUpdateZone) (owner_name : Text)
    (type record_class ttl rdlength offset : ℕ)
    → Ensures
        (Filed zone)
        (update_record query zone owner_name type record_class ttl rdlength offset)
unfolding update_record
update_record-Filed query zone owner_name type record_class ttl rdlength offset =
    let deletion = record_class == dns_class_any || record_class == dns_class_none in
    Ensures-if (is_empty (type_name type)) _ _ (λ _. returns tt)
      λ _.
        Ensures-if (not deletion && not (record_class == dns_class_in)) _ _ (λ _. returns tt)
          λ _.
            Ensures-if (not deletion) _ _
              (λ _.
                Ensures-bind _ _ (parse_update_rdata-Ends query offset rdlength type _)
                  λ (filled, good) _. returns (ground arith))
              λ _.
                Ensures-if (ltb 0 rdlength) _ _
                  (λ _.
                    Ensures-bind _ _ (parse_update_rdata-Ends query offset rdlength type _)
                      λ _ _. returns refl)
                  λ _. returns refl

push_back-AllFiled :
    (zone : AuthorizedUpdateZone) (records : List DnsDynamicUpdateRecord)
    (entry : Option DnsDynamicUpdateRecord)
    → AllFiled zone records
    → Filed zone entry
    → AllFiled zone (push_back records entry)
push_back-AllFiled zone records none h k = h
push_back-AllFiled zone records (some r) h k = All-append _ records (r ∷ []) h (k, tt)

pub parse_update_records-AllFiled :
    (query : List ℕ) (offset count : ℕ) (zone : AuthorizedUpdateZone)
    (records : List DnsDynamicUpdateRecord)
    → AllFiled zone records
    → Ensures (AllFiled zone) (parse_update_records query offset count zone records)
unfolding parse_update_records
parse_update_records-AllFiled query offset zero zone records filed = returns filed
parse_update_records-AllFiled query offset (suc count) zone records filed =
    Ensures-attempt (read_dns_name query offset) _ _ (read_dns_name-Ensures query offset)
      (returns tt)
      λ (owner_name, after) _.
        Ensures-if (ltb (length query) (after + 10)) _ _ (λ _. returns tt)
          λ room. Ensures-bind _ _ (read_u16-Ensures query after (ground arith)) λ type _.
            Ensures-bind _ _ (read_u16-Ensures query (after + 2) (ground arith)) λ record_class _.
              Ensures-bind _ _ (read_u32-Ensures query (after + 4) (ground arith)) λ ttl _.
                Ensures-bind _ _ (read_u16-Ensures query (after + 8) (ground arith)) λ rdlength _.
                  Ensures-if (ltb (length query) (after + 10 + rdlength)) _ _ (λ _. returns tt)
                    λ _.
                      Ensures-bind _ _
                        (update_record-Filed query zone owner_name type record_class ttl rdlength
                          (after + 10))
                        λ entry one.
                          parse_update_records-AllFiled query (after + 10 + rdlength) count zone
                            (push_back records entry)
                            (push_back-AllFiled zone records entry filed one)

-- An update that is not valid or not authorised changes nothing, and every record that an update
-- changes is filed under a zone that is stored.
pub record IsContained (zones : List DnsZone) (update : DnsDynamicUpdate) : Type 0 where
  pub invalid_empty : update.valid ≡ false → update.records ≡ []
  pub unauthorized_empty : update.authorized ≡ false → update.records ≡ []
  pub filed : All (λ r. IsStored zones r.zone_name) update.records

All-IsStored :
    (zones : List DnsZone) (zone : AuthorizedUpdateZone) (records : List DnsDynamicUpdateRecord)
    → IsStored zones zone.storage_zone_name
    → AllFiled zone records
    → All (λ r. IsStored zones r.zone_name) records
All-IsStored zones zone [] h k = tt
All-IsStored zones zone (r ∷ records) h (k, ks) = (rw k h, All-IsStored zones zone records h ks)

-- On every packet and every list of stored zones the parser of dynamic updates returns without
-- leaving the packet, and what it returns is contained in the stored zones.
pub parse_dns_dynamic_update-IsContained :
    (query : List ℕ) (zones : List DnsZone)
    → Ensures (IsContained zones) (parse_dns_dynamic_update query zones)
unfolding parse_dns_dynamic_update
parse_dns_dynamic_update-IsContained query zones =
    Ensures-if (ltb (length query) 12) _ _ (λ _. returns (nothing _ refl))
      λ long. Ensures-bind _ _ (read_u16-Ensures query 2 (ground arith)) λ flags _.
        Ensures-if (not (dns_opcode flags == dns_opcode_update)) _ _ (λ _. returns (nothing _ refl))
          λ _.
            Ensures-attempt (parse_question query) _ _ (parse_question-Ensures query)
              (returns (nothing _ refl))
              λ question inside.
                let zone = authorized_update_zone question zones in
                Ensures-if (not (is_update_zone question)) _ _ (λ _. returns (nothing _ refl))
                  λ _.
                    Ensures-if (not (zone.authorized)) _ _ (λ _. returns (nothing _ refl))
                      λ allowed.
                        Ensures-bind _ _ (read_u16-Ensures query 6 (ground arith))
                          λ prerequisites _.
                            Ensures-bind _ _ (read_u16-Ensures query 8 (ground arith)) λ updates _.
                              Ensures-attempt
                                (skip_dns_records query question.end_offset prerequisites) _ _
                                (skip_dns_records-Ensures query question.end_offset prerequisites)
                                (returns (nothing _ refl))
                                λ offset _.
                                  Ensures-bind _ _
                                    (parse_update_records-AllFiled query offset updates zone [] tt)
                                    λ records filed. returns (record {
                                      invalid_empty = λ e. cc;
                                      unauthorized_empty = λ e. ground arith;
                                      filed =
                                          All-IsStored zones zone records
                                            (authorized_update_zone-IsStored question zones
                                              (ground arith))
                                            filed;
                                    })
  where
    nothing : (u : DnsDynamicUpdate) → u.records ≡ [] → IsContained zones u
    nothing u e = record { invalid_empty = λ _. e; unauthorized_empty = λ _. e; filed = rw e tt }
