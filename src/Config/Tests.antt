-- ===== src/Config/Tests.antt =====
-- The theorems on configurations at concrete texts.
use pgraft.Base.{
  ◌≤◌, ◌≡◌, refl, some, List, [], ◌∷◌, length, bytes, skip_space, tokens, tokens_from, break_at,
  text_eq, ok,
}
use pgraft.Config.Urls.{begins_with}
use pgraft.Config.Members.{
  Member, parse_initial_cluster, contains, is_valid_member, check_members, GucVars, has_members,
  is_unset, is_known_state, validate_configuration,
}
use pgraft.Config.RoundTrip.{AllPlain, cluster_text, parse-cluster_text}
use pgraft.Config.Validated.{AllNamed, validated-members}

abbrev two_members : List Member
two_members =
    record { name = bytes "a"; peer_url = bytes "http://h:1" }
    ∷ record { name = bytes "b"; peer_url = bytes "http://h:2" }
    ∷ []

two_members-AllPlain : AllPlain two_members
two_members-AllPlain = (
  record {
    named = cc;
    name_ink = refl;
    name_comma = (refl, tt);
    name_equals = (refl, tt);
    url_ink = refl;
    url_comma = (refl, (refl, (refl, (refl, (refl, (refl, (refl, (refl, (refl, (refl, tt))))))))));
  },
  (
    record {
      named = cc;
      name_ink = refl;
      name_comma = (refl, tt);
      name_equals = (refl, tt);
      url_ink = refl;
      url_comma =
          (refl, (refl, (refl, (refl, (refl, (refl, (refl, (refl, (refl, (refl, tt))))))))));
    },
    tt,
  ),
)

parse-cluster_text_example :
    parse_initial_cluster (some (cluster_text two_members)) ≡ (ok, 2, two_members)
parse-cluster_text_example = parse-cluster_text two_members two_members-AllPlain

abbrev settings : GucVars
settings = record {
  initial_cluster_token = some (bytes "t");
  listen_peer_urls = some (bytes "http://h:1");
  initial_cluster = some (bytes "a=http://h:1, b=http://h:2");
  initial_cluster_state = some (bytes "new");
  heartbeat_interval = 100;
  election_timeout = 1000;
  snapshot_count = 10000;
  max_log_entries = 1000;
}

settings-ok : validate_configuration settings ≡ ok
unfolding validate_configuration is_unset has_members check_members is_valid_member is_known_state
    contains begins_with skip_space tokens tokens_from break_at text_eq
settings-ok = refl

validated-members_example :
    ((parse_initial_cluster settings.initial_cluster).0 ≡ ok)
    × (1 ≤ (parse_initial_cluster settings.initial_cluster).1)
    × (length (parse_initial_cluster settings.initial_cluster).2
        ≡ (parse_initial_cluster settings.initial_cluster).1)
    × AllNamed (parse_initial_cluster settings.initial_cluster).2
validated-members_example = validated-members settings settings-ok
