-- ===== src/Issuance/Demands.antt =====
-- core/engine/issuance/rules.go: the whole of what a template demands, against checkTemplate.
use certpilot.Prelude.{
  ◌≡◌, ◌≢◌, ◌↔◌, ◌⊎◌, refl, ap, inl, inr, arith, true, false, not, Option, none, some, List, [],
  ◌∷◌, Text, ◌==◌, ==_iff, All,
}
use certpilot.Audit.Bytes.{Bytes}
use certpilot.Text.{bytes_eq_iff, to_upper, trim_space}
use certpilot.Policy.Domains.{Any, Any-map_iff, any_name_iff}
use certpilot.Policy.Rules.{AtMost, IsPositive, is_empty_iff}
use certpilot.Issuance.{
  CertificateTemplate, CsrInfo, Custody, Decision, Refusal, Request, any_custody, held_by,
}
use certpilot.Issuance.Template.{
  all_answered, any_differs, check_authority_csr, check_authority_request, check_custody, check_key,
  check_lifetime, check_metadata, check_names, check_san_types, check_subject, check_template,
  dns_kind, email_kind, find_value, has_no_csr, ip_kind, is_answered, is_other_custody, names_kind,
  or_else, permits_kind, permits_kinds, uri_kind,
}
use certpilot.Issuance.Permits.{MeetsKey, MeetsNames, check_key_iff, check_names_iff}

-- The template permits names of the kind, or the request has none.
abbrev pub MeetsKind : CertificateTemplate → Bytes → List Bytes → Type 0
MeetsKind tpl kind names =
    (names ≡ []) ⊎ Any (λ t. to_upper (trim_space t) ≡ kind) tpl.san_rules.types

-- Where the request names a value of the subject that the template supplies, it is the template's.
abbrev pub MeetsSubject : CsrInfo → List (Text × Text) → Type 0
MeetsSubject csr defaults =
    All (λ d. (find_value d.0 csr.subject ≡ none) ⊎ (find_value d.0 csr.subject ≡ some d.1))
      defaults

-- What a signing request has to meet.
abbrev pub MeetsCsr : CertificateTemplate → Option CsrInfo → Type 0
MeetsCsr tpl none = Unit
MeetsCsr tpl (some csr) =
    (csr.requests_ca ≡ false)
    × (csr.requests_key_cert_sign ≡ false)
    × ((tpl.san_rules.types ≡ [])
        ⊎ (MeetsKind tpl ip_kind csr.ip_addresses
            × MeetsKind tpl email_kind csr.email_addresses
            × MeetsKind tpl uri_kind csr.uris
            × MeetsKind tpl dns_kind csr.dns_names))
    × (tpl.supplies_subject ≡ true → MeetsSubject csr tpl.subject_defaults)

-- Who would hold the key, and who has to.
abbrev pub MeetsCustody : Custody → Custody → Type 0
MeetsCustody Custody.unset required = Unit
MeetsCustody (held_by a) (held_by b) = a ≡ b
MeetsCustody any_custody (held_by b) = ⊥
MeetsCustody _ _ = Unit

abbrev pub MeetsMetadata : List Text → List Text → Type 0
MeetsMetadata answers keys = All (λ key. Any (λ k. k ≡ key) answers) keys

-- Everything that the template demands.
pub record Permitted (d : Decision) (tpl : CertificateTemplate) (req : Request) : Type 0 where
  pub csr : MeetsCsr tpl req.csr
  pub key : MeetsKey d tpl
  pub names : MeetsNames d tpl
  pub csr_given : tpl.csr_required ≡ true → req.csr ≢ none
  pub custody : MeetsCustody req.key_custody tpl.key_custody_required
  pub metadata : MeetsMetadata req.metadata_keys tpl.require_metadata
  pub lifetime : IsPositive tpl.max_validity_days → AtMost d.validity_days tpl.max_validity_days

permits_kind_iff :
    (tpl : CertificateTemplate) (kind : Bytes) (names : List Bytes)
    → (permits_kind tpl kind names ≡ true) ↔ MeetsKind tpl kind names
unfolding permits_kind names_kind
permits_kind_iff tpl kind names =
    let empty = is_empty_iff names in
    let any = any_name_iff (names_kind kind) tpl.san_rules.types in
    let each =
      Any-map_iff {P = λ t. names_kind kind t ≡ true} {Q = λ t. to_upper (trim_space t) ≡ kind}
        tpl.san_rules.types (λ t. bytes_eq_iff (to_upper (trim_space t)) kind) in
    ground (arith, empty, any, each)

some_injective : {a b : Text} → some a ≡ some b → a ≡ b
some_injective p = cc

value_iff :
    (found : Option Text) (want : Text)
    → ((elim found [ none ↦ false | some got ↦ not (got == want) ]) ≡ false)
      ↔ ((found ≡ none) ⊎ (found ≡ some want))
value_iff none want = (λ h. inl refl, λ h. refl)
value_iff (some got) want = (
  λ h. inr (let e : got ≡ want = ground (arith, h) in ap some e),
  λ h. elim h [ inl p ↦ cc | inr p ↦ let e = some_injective p in ground (arith, e) ],
)

any_differs_iff :
    (csr : CsrInfo) (defaults : List (Text × Text))
    → (any_differs csr defaults ≡ false) ↔ MeetsSubject csr defaults
unfolding any_differs
any_differs_iff csr [] = (λ h. tt, λ h. refl)
any_differs_iff csr ((key, want) ∷ rest) =
    let first = value_iff (find_value key csr.subject) want in
    let others = any_differs_iff csr rest in ground (arith, first, others)

check_csr_iff :
    (tpl : CertificateTemplate) (req : Request) (found : Option CsrInfo)
    → req.csr ≡ found
    → ((check_authority_request req ≡ none)
        × (check_san_types tpl req ≡ none)
        × (check_subject tpl req ≡ none))
      ↔ MeetsCsr tpl found
unfolding check_authority_request check_authority_csr check_san_types check_subject permits_kinds
check_csr_iff tpl req none e = rw (e) (λ h. tt, λ h. (refl, refl, refl))
check_csr_iff tpl req (some csr) e =
    let types = is_empty_iff tpl.san_rules.types in
    let subject = any_differs_iff csr tpl.subject_defaults in
    let ip = permits_kind_iff tpl ip_kind csr.ip_addresses in
    let email = permits_kind_iff tpl email_kind csr.email_addresses in
    let uri = permits_kind_iff tpl uri_kind csr.uris in
    let dns = permits_kind_iff tpl dns_kind csr.dns_names in
    rw (e) (ground (arith, types, subject, ip, email, uri, dns))

is_other_custody_iff : (a b : Custody) → (is_other_custody a b ≡ false) ↔ MeetsCustody a b
unfolding is_other_custody
is_other_custody_iff Custody.unset b = (λ h. tt, λ h. refl)
is_other_custody_iff any_custody Custody.unset = (λ h. tt, λ h. refl)
is_other_custody_iff any_custody any_custody = (λ h. tt, λ h. refl)
is_other_custody_iff any_custody (held_by b) = (λ h. cc, λ h. absurd h)
is_other_custody_iff (held_by a) Custody.unset = (λ h. tt, λ h. refl)
is_other_custody_iff (held_by a) any_custody = (λ h. tt, λ h. refl)
is_other_custody_iff (held_by a) (held_by b) = let same = ==_iff a b in ground (arith, same)

has_no_csr_iff : (found : Option CsrInfo) → (has_no_csr found ≡ true) ↔ (found ≡ none)
unfolding has_no_csr
has_no_csr_iff none = (λ h. refl, λ h. refl)
has_no_csr_iff (some csr) = (λ h. cc, λ h. cc)

is_answered_iff :
    (key : Text) (answers : List Text)
    → (is_answered key answers ≡ true) ↔ Any (λ k. k ≡ key) answers
unfolding is_answered
is_answered_iff key [] = (λ h. cc, λ h. absurd h)
is_answered_iff key (k ∷ ks) =
    let rest = is_answered_iff key ks in let same = ==_iff k key in ground (arith, rest, same)

all_answered_iff :
    (answers keys : List Text) → (all_answered answers keys ≡ true) ↔ MeetsMetadata answers keys
unfolding all_answered
all_answered_iff answers [] = (λ h. tt, λ h. refl)
all_answered_iff answers (key ∷ keys) =
    let first = is_answered_iff key answers in
    let rest = all_answered_iff answers keys in ground (arith, first, rest)

check_custody_iff :
    (tpl : CertificateTemplate) (req : Request)
    → (check_custody tpl req ≡ none) ↔ (
        (tpl.csr_required ≡ true → req.csr ≢ none)
        × MeetsCustody req.key_custody tpl.key_custody_required)
unfolding check_custody
check_custody_iff tpl req =
    let missing = has_no_csr_iff req.csr in
    let custody = is_other_custody_iff req.key_custody tpl.key_custody_required in
    ground (arith, missing, custody)

-- No refusal in a sequence of eight checks.
no_refusal_iff :
    (a b c d e f g h : Option Refusal)
    → (or_else a (or_else b (or_else c (or_else d (or_else e (or_else f (or_else g h)))))) ≡ none)
      ↔ ((a ≡ none)
          × (b ≡ none)
          × (c ≡ none)
          × (d ≡ none)
          × (e ≡ none)
          × (f ≡ none)
          × (g ≡ none)
          × (h ≡ none))
no_refusal_iff (some r) b c d e f g h = (λ k. cc, λ k. cc)
no_refusal_iff none (some r) c d e f g h = (λ k. cc, λ k. cc)
no_refusal_iff none none (some r) d e f g h = (λ k. cc, λ k. cc)
no_refusal_iff none none none (some r) e f g h = (λ k. cc, λ k. cc)
no_refusal_iff none none none none (some r) f g h = (λ k. cc, λ k. cc)
no_refusal_iff none none none none none (some r) g h = (λ k. cc, λ k. cc)
no_refusal_iff none none none none none none (some r) h = (λ k. cc, λ k. cc)
no_refusal_iff none none none none none none none h =
    (λ k. (refl, refl, refl, refl, refl, refl, refl, k), λ k. k.7)

-- A template lets a request through exactly if the request meets everything that the template demands: of
-- the signing request, the key, the names, the custody of the key, the metadata and the lifetime.
pub check_template_iff :
    (d : Decision) (tpl : CertificateTemplate) (req : Request)
    → (check_template d tpl req ≡ none) ↔ Permitted d tpl req
unfolding check_template check_metadata check_lifetime
check_template_iff d tpl req =
    let chain =
      no_refusal_iff (check_authority_request req) (check_key d tpl) (check_san_types tpl req)
        (check_names d tpl) (check_subject tpl req) (check_custody tpl req) (check_metadata tpl req)
        (check_lifetime d tpl) in
    let csr = check_csr_iff tpl req req.csr refl in
    let key = check_key_iff d tpl in
    let names = check_names_iff d tpl in
    let custody = check_custody_iff tpl req in
    let metadata = all_answered_iff req.metadata_keys tpl.require_metadata in
    (
      λ h.
          let (c1, c2, c3, c4, c5, c6, c7, c8) = chain.0 h in
          record {
            csr = csr.0 (c1, c3, c5);
            key = key.0 c2;
            names = names.0 c4;
            csr_given = (custody.0 c6).0;
            custody = (custody.0 c6).1;
            metadata = metadata.0 (ground (arith, c7));
            lifetime = ground (arith, c8);
          },
      λ p.
          let (c1, c3, c5) = csr.1 p.csr in
          let answered = metadata.1 p.metadata in
          let within = p.lifetime in
          chain.1 (
            c1,
            key.1 p.key,
            c3,
            names.1 p.names,
            c5,
            custody.1 (p.csr_given, p.custody),
            ground (arith, answered),
            ground (arith, within),
          ),
    )
