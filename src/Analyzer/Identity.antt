-- ===== src/Analyzer/Identity.antt =====
-- src/itn_uptime_analyzer/identity.go: the identities of the producers that submitted in a period.
pub mod Distinct
use uptime_service_backend.Base.{
  ℕ, ◌≡◌, refl, Bool, true, false, not, ◌&&◌, Option, none, some, List, [], ◌∷◌, ◌++◌,
  if◌then◌else◌,
}
use uptime_service_backend.Base.Result.{Result, ok, err, ◌>>=◌, ◌>>◌, or_fail}
use uptime_service_backend.Base.Int.{ℤ, pos, is_zero}
use uptime_service_backend.Base.Text.{Bytes, lit, equal}
use uptime_service_backend.Base.Decimal.{itoa}
use uptime_service_backend.Clock.{Instant, after}
use uptime_service_backend.Externals.{Externals}
use uptime_service_backend.Keys.{pk_string}
use uptime_service_backend.Request.{MetaToBeSaved}
use uptime_service_backend.Analyzer.{
  Halt, fatal, panics, Object, Listing, Libraries, get_submission_time,
}
use uptime_service_backend.Analyzer.Period.{PeriodConfig}

-- The uptime is what the pointer leads to, the empty text at first.
pub record Identity : Type 0 where
  pub id : Bytes
  pub public_key : Bytes
  pub public_ip : Bytes
  pub graph_ql_port : Option Bytes
  pub uptime : Bytes

-- What the analyzer's configuration says to the listing.
pub record Settings : Type 0 where
  pub period : PeriodConfig
  pub ignore_ips : Bool

unfoldable pub is_identity_in_array : Bytes → List Identity → Bool
is_identity_in_array id [] = false
is_identity_in_array id (x ∷ xs) = if equal x.id id then true else is_identity_in_array id xs

module _ (lib : Libraries) where
  unfoldable pub get_full_identity : Bytes → Bytes → Bytes → Identity
  get_full_identity pub_key ip port = record {
    id = lib.md5_hex (pub_key ++ lit "-" ++ ip ++ lit "-" ++ port);
    public_key = pub_key;
    public_ip = ip;
    graph_ql_port = some port;
    uptime = [];
  }

  unfoldable pub get_partial_identity : Bytes → Bytes → Identity
  get_partial_identity pub_key ip = record {
    id = lib.md5_hex (pub_key ++ lit "-" ++ ip);
    public_key = pub_key;
    public_ip = ip;
    graph_ql_port = none;
    uptime = [];
  }

  module _ (ext : Externals) (config : Settings) where
    unfoldable pub identity_of : MetaToBeSaved → Identity
    identity_of data_ =
        let remote_addr = if config.ignore_ips then [] else data_.remote_addr in
        let key = pk_string ext data_.submitter in
        if not config.ignore_ips && not (is_zero data_.graphql_control_port)
        then get_full_identity key remote_addr (itoa data_.graphql_control_port)
        else get_partial_identity key remote_addr

    abbrev pub append_new : Identity → List Identity → List Identity
    append_new x xs = if is_identity_in_array x.id xs then xs else xs ++ x ∷ []

    -- One object. The metadata is decoded over those of the object before it, which are passed on
    -- with the identities.
    unfoldable pub visit :
        Object → MetaToBeSaved × List Identity → Result Halt (MetaToBeSaved × List Identity)
    visit obj (data_, xs) = do
      at ← get_submission_time lib obj.key
      let read = do
        contents ← or_fail obj.contents fatal
        data' ← or_fail (lib.unmarshal_meta contents data_) fatal
        ok (data', append_new (identity_of data') xs)
      if after at config.period.start && after config.period.end at then read else ok (data_, xs)

    unfoldable pub visit_page :
        List Object → MetaToBeSaved × List Identity → Result Halt (MetaToBeSaved × List Identity)
    visit_page [] s = ok s
    visit_page (obj ∷ objs) s = do s' ← visit obj s; visit_page objs s'

    unfoldable pub visit_pages :
        Listing → MetaToBeSaved × List Identity → Result Halt (MetaToBeSaved × List Identity)
    visit_pages [] s = ok s
    visit_pages (page ∷ pages) s = do
      objs ← or_fail page fatal
      s' ← visit_page objs s
      visit_pages pages s'

    -- The listing is that of the day on which the period starts.
    unfoldable pub create_identities : MetaToBeSaved → Listing → Result Halt (List Identity)
    create_identities empty pages = do s ← visit_pages pages (empty, []); ok s.1
