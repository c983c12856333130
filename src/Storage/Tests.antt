-- ===== src/Storage/Tests.antt =====
-- Runs of the storage on one submission and its block.
use uptime_service_backend.Base.{◌≡◌, ◌<◌, ◌/◌, refl, false, none, some, List, [], ◌∷◌, ◌++◌}
use uptime_service_backend.Base.Int.{pos}
use uptime_service_backend.Base.Text.{Bytes, lit, has_prefix, trim_suffix, equal}
use uptime_service_backend.Base.Dict.{lookup}
use uptime_service_backend.Clock.{Instant}
use uptime_service_backend.Storage.{
  Submission, Readers, empty_submission, parsed, parse_submission_bytes, split, last_index,
}
use uptime_service_backend.Paths.{ObjectsToSave}
use uptime_service_backend.Config.{AppConfig, AwsConfig}
use uptime_service_backend.Storage.{
  object_to_save_to_submission, no_valid_submission, absorb_all, absorb, merge_submission,
  merge_block,
}
use uptime_service_backend.Storage.Backends.Save.{World, save}
use uptime_service_backend.Storage.Backends.Save.Stored.{save-stores}
use uptime_service_backend.Storage.Shard.{calculate_shard, second_of_day, calculate_shard_bounds}
use uptime_service_backend.Storage.Backends.Objects.Stored.{key_of}
use uptime_service_backend.Storage.Backends.Objects.{Bucket, Directory}
use uptime_service_backend.Storage.Backends.Opening.{conn_str, new_postgre_sql}
use uptime_service_backend.Base.{true}
use uptime_service_backend.Base.Decimal.{itoa}
use uptime_service_backend.Storage.Backends.Databases.{
  Value, Exec, SmallBlock, keyspaces_insert, keyspaces_insert-SmallBlock,
}

abbrev now : Instant
now = pos 63_000_000_000_000_000_000

calculate_shard_bounds_example :
    (calculate_shard now < 600) × (calculate_shard now ≡ second_of_day now / 144)
calculate_shard_bounds_example = calculate_shard_bounds now

abbrev readers : Readers
readers = record {
  unmarshal_submission = λ content. some (record empty_submission { block_hash = content });
  parse_time = λ t. some now;
}

abbrev meta_path : Bytes
meta_path = lit "submissions/2024-01-02/t-k.json"

abbrev block_path : Bytes
block_path = lit "blocks/3N.dat"

abbrev read_back : Submission
read_back = record empty_submission {
  block_hash = lit "3N";
  submitted_at_date = lit "2024-01-02";
  submitted_at = now;
}

reads : parse_submission_bytes readers (lit "3N") meta_path ≡ parsed read_back
unfolding parse_submission_bytes split last_index trim_suffix
reads = refl

abbrev directory : Directory
directory = record {
  stat_fails = λ p. false;
  mkdir_fails = λ p. false;
  write_fails = λ p. false;
  join = λ p. lit "/" ++ p;
}

-- A database that keeps the lists of values that it is sent.
abbrev logged : Exec (List (List Value))
logged query values log = (none, values ∷ log)

abbrev AllSmall : List (List Value) → Type 0
AllSmall [] = Unit
AllSmall (values ∷ log) = SmallBlock logged values × AllSmall log

keyspaces_insert-SmallBlock_example :
    AllSmall
      (keyspaces_insert logged
        (lit "ks")
        (record read_back { raw_block = some (lit "b") })
        []).world
keyspaces_insert-SmallBlock_example =
    keyspaces_insert-SmallBlock logged {P = AllSmall} (λ query values s log all. (s, all))
      (lit "ks") (record read_back { raw_block = some (lit "b") }) [] tt

abbrev open_bucket : Bucket
open_bucket = record { head_fails = λ k. false; put_fails = λ k. false }

abbrev objects : ObjectsToSave
objects = (meta_path, lit "3N") ∷ (block_path, lit "b") ∷ []

objects_read : object_to_save_to_submission readers objects ≡ some no_valid_submission
unfolding object_to_save_to_submission absorb_all absorb parse_submission_bytes merge_submission
    merge_block has_prefix split last_index trim_suffix
objects_read = refl

abbrev aws : AwsConfig
aws = record {
  account_id = lit "1";
  bucket_name_suffix = lit "uptime";
  region = lit "us-west-2";
  access_key_id = [];
  secret_access_key = [];
}

abbrev config : AppConfig
config = record {
  network_name = lit "net";
  gsheet_id = [];
  delegation_whitelist_list = [];
  delegation_whitelist_column = [];
  delegation_whitelist_disabled = true;
  verify_signature_disabled = true;
  aws = some aws;
  aws_keyspaces = none;
  local_file_system = some (record { path = lit "/data" });
  postgre_sql = none;
}

abbrev world : World (List (List Value)) (List (List Value))
world = record { bucket = (lit "net/x", lit "1") ∷ []; keyspaces = []; postgresql = []; files = [] }

save-stores_example :
    (w : World (List (List Value)) (List (List Value))) × (save open_bucket logged logged
        (λ path. directory)
        readers
        config
        objects
        world
      ≡ some w)
    × (lookup (key_of (lit "net") block_path) w.bucket ≡ some (lit "b"))
unfolding lookup equal has_prefix
save-stores_example =
    save-stores open_bucket logged logged (λ path. directory) readers config aws block_path
      (lit "b") ((meta_path, lit "3N") ∷ []) [] no_valid_submission world refl objects_read
      (refl, tt) tt refl

-- The database is asked for by its connection string.
opened :
    new_postgre_sql
      (equal (lit "host=h port=5432 user=u password=p dbname=d sslmode=require"))
      (λ db. true)
      (record {
        host = lit "h";
        port = pos 5432;
        user = lit "u";
        password = lit "p";
        db_name = lit "d";
        ssl_mode = lit "require";
      })
    ≡ some (lit "host=h port=5432 user=u password=p dbname=d sslmode=require")
unfolding new_postgre_sql conn_str equal itoa
opened = refl
