-- ===== src/Analyzer/Uptime/Portless.antt =====
-- What src/itn_uptime_analyzer/uptime.go does where an identity without a port meets a submission
-- that has one: the port is read through a nil pointer.
use uptime_service_backend.Base.{
  ◌≡◌, refl, ap, ◌∙◌, Bool, true, false, none, some, List, [], ◌∷◌, ◌++◌,
}
use uptime_service_backend.Base.Result.{ok, err, >>=-eq-ok}
use uptime_service_backend.Base.Int.{ℤ, pos, is_zero}
use uptime_service_backend.Base.Text.{Bytes, lit, equal, equal_refl}
use uptime_service_backend.Clock.{Duration}
use uptime_service_backend.Externals.{Externals}
use uptime_service_backend.Keys.{pk_string}
use uptime_service_backend.Request.{MetaToBeSaved}
use uptime_service_backend.Analyzer.{panics, Object, Listing, Libraries}
use uptime_service_backend.Analyzer.Identity.{Identity, Settings, get_partial_identity, identity_of}
use uptime_service_backend.Analyzer.Uptime.{
  Progress, Floats, spacing, start_of, read_object, matches_identity, visit, visit_page,
  visit_pages, get_uptime,
}

module _ (lib : Libraries) (ext : Externals) (config : Settings) (identity : Identity) where
  -- The submission has the identity's key and address, and a port, which the identity has not.
  record IsWithPort (m : MetaToBeSaved) : Type 0 where
    reads_addresses : config.ignore_ips ≡ false
    has_port : is_zero m.graphql_control_port ≡ false
    same_key : equal identity.public_key (pk_string ext m.submitter) ≡ true
    same_address : equal identity.public_ip m.remote_addr ≡ true
    no_port : identity.graph_ql_port ≡ none

  matches_identity-panics :
      (m : MetaToBeSaved) → IsWithPort m → matches_identity lib ext config identity m ≡ err panics
  unfolding matches_identity
  matches_identity-panics m w =
      simp (matches_identity, w.reads_addresses, w.has_port, w.same_key, w.same_address, w.no_port)

  visit-panics :
      (matches : Bytes → Bool) (wait : Duration) (obj : Object) (p : Progress) (m : MetaToBeSaved)
      → read_object lib ext config identity matches obj p.meta ≡ ok (some m)
      → IsWithPort m
      → visit lib ext config identity matches wait obj p ≡ err panics
  unfolding visit
  visit-panics matches wait obj p m read w = simp (visit, read, matches_identity-panics m w)

  -- The page with such a submission, if the objects before it are counted.
  visit_page-panics :
      (matches : Bytes → Bool) (wait : Duration) (before : List Object) (obj : Object)
      (after : List Object) (p p' : Progress) (m : MetaToBeSaved)
      → visit_page lib ext config identity matches wait before p ≡ ok p'
      → read_object lib ext config identity matches obj p'.meta ≡ ok (some m)
      → IsWithPort m
      → visit_page lib ext config identity matches wait (before ++ obj ∷ after) p ≡ err panics
  unfolding visit_page
  visit_page-panics matches wait [] obj after p p' m counted read w =
      let same : p ≡ p' = cc in
      let here : read_object lib ext config identity matches obj p.meta ≡ ok (some m) =
        ap (λ (q : Progress). read_object lib ext config identity matches obj q.meta) same ∙ read in
      rw (visit-panics matches wait obj p m here w) refl
  visit_page-panics matches wait (o ∷ before) obj after p p' m counted read w =
      let (q, first, rest) = >>=-eq-ok (visit lib ext config identity matches wait o p) _ counted in
      rw first (visit_page-panics matches wait before obj after q p' m rest read w)

-- Two submissions of one producer: the same key and address, the first without a port (which the
-- metadata leaves out when it is 0), the second with one.
pub record IsTwice (first second : MetaToBeSaved) : Type 0 where
  pub same_submitter : second.submitter ≡ first.submitter
  pub same_addr : second.remote_addr ≡ first.remote_addr
  pub portless : first.graphql_control_port ≡ pos 0
  pub with_port : is_zero second.graphql_control_port ≡ false

identity_of-partial :
    (lib : Libraries) (ext : Externals) (config : Settings) (m : MetaToBeSaved)
    → config.ignore_ips ≡ false
    → m.graphql_control_port ≡ pos 0
    → identity_of lib ext config m
      ≡ get_partial_identity lib (pk_string ext m.submitter) m.remote_addr
unfolding identity_of
identity_of-partial lib ext config m ips portless = rw (ips, portless) refl

identity_of-IsWithPort :
    (lib : Libraries) (ext : Externals) (config : Settings) (first second : MetaToBeSaved)
    → config.ignore_ips ≡ false
    → IsTwice first second
    → IsWithPort lib ext config (identity_of lib ext config first) second
unfolding get_partial_identity
identity_of-IsWithPort lib ext config first second ips t =
    rw (identity_of-partial lib ext config first ips t.portless) (record {
      reads_addresses = ips;
      has_port = t.with_port;
      same_key = rw t.same_submitter (equal_refl _);
      same_address = rw t.same_addr (equal_refl _);
      no_port = refl;
    })

-- A producer that submits once without a port and once with one: for the identity that
-- CreateIdentities makes of the first submission, GetUptime ends with a panic as soon as the first
-- page of the period's listing holds the second, whatever objects and pages follow, if addresses
-- are not ignored, the sync period is not 0, the pattern compiles and the objects before it are
-- counted.
pub get_uptime-panics :
    {F : Type 0} (lib : Libraries) (ext : Externals) (config : Settings) (floats : Floats F)
    (sync_period : ℤ) (matches : Bytes → Bool) (before : List Object) (obj : Object)
    (after : List Object) (pages : Listing) (empty first second : MetaToBeSaved) (p : Progress)
    → config.ignore_ips ≡ false
    → is_zero sync_period ≡ false
    → lib.compile_regexp (lit ".*-" ++ pk_string ext first.submitter ++ lit ".json") ≡ some matches
    → visit_page lib ext config
        (identity_of lib ext config first)
        matches
        (spacing sync_period)
        before
        (start_of empty)
      ≡ ok p
    → read_object lib ext config (identity_of lib ext config first) matches obj p.meta
      ≡ ok (some second)
    → IsTwice first second
    → get_uptime lib ext config
        (identity_of lib ext config first)
        floats
        sync_period
        empty
        (some (before ++ obj ∷ after) ∷ pages)
      ≡ err panics
unfolding get_uptime visit_pages get_partial_identity
get_uptime-panics lib ext config floats sync_period matches before obj after pages empty first
      second p ips works regexp counted read twice =
    let identity = identity_of lib ext config first in
    let named : lib.compile_regexp (lit ".*-" ++ identity.public_key ++ lit ".json")
        ≡ some matches =
      rw (identity_of-partial lib ext config first ips twice.portless) regexp in
    let page =
      visit_page-panics lib ext config identity matches (spacing sync_period) before obj after
        (start_of empty) p second counted read
        (identity_of-IsWithPort lib ext config first second ips twice) in
    rw (works, named) (rw page refl)
