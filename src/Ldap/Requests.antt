-- ===== src/Ldap/Requests.antt =====
-- Reading the operations of LDAP requests: ldap.cpp, `SearchRequest`, `CompareRequest` and
-- `LdapBindRequest` with their `parse_` functions. An `int` is its pattern of 32 bits.
use endorium_nexus.Ldap.Ber.{LdapNode, read_node, integer_from_node, string_from_node}
use endorium_nexus.Prelude.{
  ltb, ◌==◌, if◌then◌else◌, Outcome, ok, fault, ◌>>=◌, ◌>>◌, reject_if, attempt, Text, ℕ, zero, suc,
  ◌+◌, not, Option, none, some, List, [], ◌∷◌, ◌++◌,
}

pub record SearchRequest : Type 0 where
  pub base_dn : Text
  pub scope : ℕ
  pub filter : Option LdapNode
  pub attributes : List Text

pub record CompareRequest : Type 0 where
  pub dn : Text
  pub attribute : Text
  pub value : Text

pub record LdapBindRequest : Type 0 where
  pub version : ℕ
  pub name : Text
  pub auth_tag : ℕ
  pub simple_password : Text
  pub sasl_mechanism : Text
  pub sasl_credentials : List ℕ

-- `if (!node.has_value() || node->tag != tag) return std::nullopt;`
unfoldable pub read_tagged : List ℕ → ℕ → ℕ → ℕ → Outcome LdapNode
read_tagged input tag offset limit = do
  node ← read_node input offset limit
  reject_if (not (node.tag == tag))
  ok node

-- The loop over the fields that are not looked at: the offset behind them.
unfoldable pub skip_nodes : List ℕ → ℕ → ℕ → ℕ → Outcome ℕ
skip_nodes input zero offset limit = ok offset
skip_nodes input (suc count) offset limit = do
  node ← read_node input offset limit
  skip_nodes input count node.next_offset limit

-- The loop over the attributes; one that cannot be read ends the list.
unfoldable pub read_attributes : List ℕ → ℕ → ℕ → ℕ → List Text → Outcome (List Text)
read_attributes input zero offset limit attributes = fault
read_attributes input (suc rounds) offset limit attributes =
    if not (ltb offset limit) then ok attributes else do
      attribute ← attempt (read_node input offset limit)
      elim attribute [
        | none ↦ ok attributes
        | some node ↦
            if not (node.tag == 0x04)
            then read_attributes input rounds node.next_offset limit attributes
            else do
              text ← string_from_node input node
              read_attributes input rounds node.next_offset limit (attributes ++ text ∷ [])
      ]

-- The attributes behind the filter, if they are there.
unfoldable pub requested_attributes : List ℕ → ℕ → ℕ → Outcome (List Text)
requested_attributes input offset limit = do
  found ← attempt (read_node input offset limit)
  elim found [
    | none ↦ ok []
    | some node ↦
        if not (node.tag == 0x30)
        then ok []
        else read_attributes input (node.content_length + 1) node.content_offset
            (node.content_offset + node.content_length) []
  ]

unfoldable pub parse_search_request : List ℕ → LdapNode → Outcome SearchRequest
parse_search_request input op_node = do
  let limit = op_node.content_offset + op_node.content_length
  base ← read_tagged input 0x04 op_node.content_offset limit
  base_dn ← string_from_node input base
  scope ← read_tagged input 0x0a base.next_offset limit
  scope_value ← integer_from_node input scope
  offset ← skip_nodes input 4 scope.next_offset limit
  filter ← read_node input offset limit
  attributes ← requested_attributes input filter.next_offset limit
  ok (record {
    base_dn = base_dn;
    scope = scope_value;
    filter = some filter;
    attributes = attributes;
  })

unfoldable pub parse_compare_request : List ℕ → LdapNode → Outcome CompareRequest
parse_compare_request input op_node = do
  let limit = op_node.content_offset + op_node.content_length
  dn ← read_tagged input 0x04 op_node.content_offset limit
  assertion ← read_tagged input 0x30 dn.next_offset limit
  let assertion_limit = assertion.content_offset + assertion.content_length
  attribute ← read_tagged input 0x04 assertion.content_offset assertion_limit
  value ← read_tagged input 0x04 attribute.next_offset assertion_limit
  dn_text ← string_from_node input dn
  attribute_text ← string_from_node input attribute
  value_text ← string_from_node input value
  ok (record { dn = dn_text; attribute = attribute_text; value = value_text })

-- The mechanism's node, with or without a sequence around it, and the end of what encloses it.
unfoldable pub mechanism_node : List ℕ → LdapNode → Outcome (LdapNode × ℕ)
mechanism_node input authentication = do
  let sasl_limit = authentication.content_offset + authentication.content_length
  first ← read_node input authentication.content_offset sasl_limit
  if not (first.tag == 0x30) then ok (first, sasl_limit) else do
    let inner_limit = first.content_offset + first.content_length
    inner ← read_node input first.content_offset inner_limit
    ok (inner, inner_limit)

unfoldable pub sasl_credentials_of : List ℕ → ℕ → ℕ → Outcome (List ℕ)
sasl_credentials_of input offset limit = do
  found ← attempt (read_node input offset limit)
  elim found [
    | none ↦ ok []
    | some credentials ↦
        if credentials.tag == 0x04 then string_from_node input credentials else ok []
  ]

-- What the choice of authentication says: the password, the mechanism and the credentials.
unfoldable pub read_authentication : List ℕ → LdapNode → Outcome (Text × Text × List ℕ)
read_authentication input authentication =
    if authentication.tag == 0x80
    then (string_from_node input authentication >>= λ password. ok (password, [], []))
    else if not (authentication.tag == 0xa3)
    then ok ([], [], [])
    else do
      (mechanism, sasl_limit) ← mechanism_node input authentication
      reject_if (not (mechanism.tag == 0x04))
      sasl_mechanism ← string_from_node input mechanism
      credentials ← sasl_credentials_of input mechanism.next_offset sasl_limit
      ok ([], sasl_mechanism, credentials)

unfoldable pub parse_bind_request : List ℕ → LdapNode → Outcome LdapBindRequest
parse_bind_request input op_node = do
  let limit = op_node.content_offset + op_node.content_length
  version ← read_tagged input 0x02 op_node.content_offset limit
  version_value ← integer_from_node input version
  name ← read_tagged input 0x04 version.next_offset limit
  name_text ← string_from_node input name
  authentication ← read_node input name.next_offset limit
  (password, mechanism, credentials) ← read_authentication input authentication
  ok (record {
    version = version_value;
    name = name_text;
    auth_tag = authentication.tag;
    simple_password = password;
    sasl_mechanism = mechanism;
    sasl_credentials = credentials;
  })
