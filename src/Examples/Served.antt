-- ===== src/Examples/Served.antt =====
-- A client that rebuilds from what the server sends for a small project.
use dateilager.Prelude.{ℕ, ◌≡◌, true, none, some, List, [], ◌∷◌, map, ℤ, pos, Bytes, codes}
use dateilager.Result.{Result, ok, ◌>>=◌}
use dateilager.Auth.{admin}
use dateilager.Db.Session.{calm}
use dateilager.Db.Stream.Tars.{Sent, Tar}
use dateilager.Api.Fs.Read.{get_compress, get}
use dateilager.Api.Fs.Read.Unary.{get_unary}
use dateilager.Client.Requests.{get_objects, stream_of, prefix_query, get_objects-get_unary}
use dateilager.Files.Writer.{Header, Reader}
use dateilager.Client.Group.{Group, start}
use dateilager.Client.Rebuild.{Response, Rebuilt}
use dateilager.Client.Rebuild.Served.{response_of}
use dateilager.Examples.{two_versions}
use dateilager.Examples.Archives.{lawful_codec, keep_all}
use dateilager.Examples.Reads.{read_tables, whole}
use dateilager.Examples.Rebuilds.{fresh}
use dateilager.Examples.Streams.{warm}

abbrev header : Header
header = record {
  name = codes "a";
  type_flag = b'0';
  mode = 420;
  size = 5;
  link_name = [];
  content = ok (codes "alpha");
}

abbrev one_file : Bytes → Reader
one_file bytes = record { headers = header ∷ []; end = ok tt }

abbrev answer : Sent (List (Bytes × Bytes)) (ℤ × Tar)
answer =
    (get_compress lawful_codec keep_all admin warm (pos 1) none none (whole ∷ []) []
      (calm two_versions read_tables)).0

abbrev pack_p : Response
pack_p = record {
  version = pos 2;
  bytes = 113 ∷ 48 ∷ 121 ∷ 0 ∷ 421 ∷ 0 ∷ 49 ∷ 0 ∷ 0 ∷ 121 ∷ 116 ∷ 0 ∷ [];
  pack_path = some (codes "p/");
}

abbrev archive_a : Response
archive_a = record {
  version = pos 2;
  bytes = 98 ∷ 0 ∷ 421 ∷ 0 ∷ 49 ∷ 0 ∷ 0 ∷ 98 ∷ 109 ∷ 113 ∷ 105 ∷ 98 ∷ 0 ∷ [];
  pack_path = none;
}

abbrev observed : List Response × Result (Unit {0})
observed = (map response_of answer.sent, answer.outcome)

abbrev expected : List Response × Result (Unit {0})
expected = (pack_p ∷ archive_a ∷ [], ok tt)

abbrev begun : Group Response Rebuilt
begun = start pack_p (archive_a ∷ []) answer.outcome 1 fresh

abbrev taken : Group Response Rebuilt
taken = record begun {
  stream = [];
  receiver = dateilager.Client.Group.checking archive_a;
  busy = pack_p ∷ [];
  idle = 0;
  shared = record fresh { tracker = record { version = pos 2; count = 0; is_match = true } };
}

get_objects-get_unary_example :
    get_objects
      (λ p f o queries. ok (
        stream_of
          (get lawful_codec keep_all admin 5 warm p f o queries (calm two_versions read_tables)).0))
      (pos 1)
      (codes "a")
      []
      none
      none
    ≡ ((get_unary lawful_codec keep_all admin 5 warm
          (pos 1)
          none
          none
          (prefix_query (codes "a") [] ∷ [])
          (calm two_versions read_tables)).0.0
        >>= λ answer. ok answer.objects)
get_objects-get_unary_example =
    get_objects-get_unary lawful_codec keep_all admin 5 warm (pos 1) (codes "a") [] none none
      (calm two_versions read_tables)
