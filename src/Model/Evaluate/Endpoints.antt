-- ===== src/Model/Evaluate/Endpoints.antt =====
-- internal/model/evaluate.go, `endpoints`: sockets, publishes and forwarded ports merged by their key,
-- and `Evaluate` over them. The map is the list of its values, each where its key first came.
pub mod Laws
use Prim.Native.String.{◌++◌ as ◌<>◌}
use whyopen.Prelude.{
  ℕ, String, Bool, ◌&&◌, ◌||◌, not, Option, none, some, List, [], ◌∷◌, ◌++◌, ◌==◌, if◌then◌else◌,
  any, str_eq, Go, ok, ◌>>=◌, map,
}
use whyopen.Prelude.Strconv.{decimal}
use whyopen.Netip.{Addr, is6}
use whyopen.Netip.Parse.{parse_addr}
use whyopen.Facts.Host.{Socket, Publish, Container, Facts}
use whyopen.Model.Evaluate.Types.{EndpointKind, Owner, Endpoint, Verdict}
use whyopen.Model.Evaluate.{Zone}
use whyopen.Model.Evaluate.All.{evaluate}
use whyopen.Model.Forwards.{forwards}

-- `key`.
unfoldable pub key : Endpoint → String
unfolding decimal
key e = e.family <> ("/" <> (e.proto <> ("/" <> (e.bind_ip <> ("/" <> decimal e.port "")))))

-- `socketOwner`.
unfoldable pub socket_owner : Socket → String
socket_owner s =
    if not (str_eq s.unit "")
    then s.unit
    else (if not (str_eq s.container "") then s.container else s.process)

unfoldable pub socket_endpoint : Socket → Endpoint
unfolding socket_owner
socket_endpoint s = record {
  kind = EndpointKind.socket;
  family = s.family;
  proto = s.proto;
  bind_ip = s.bind_ip;
  port = s.port;
  owner = Owner.named (socket_owner s);
}

abbrev family_of : Option Addr → String
family_of none = "ip"
family_of (some a) = if is6 a then "ip6" else "ip"

unfoldable pub publish_endpoint : String → Publish → Endpoint
unfolding parse_addr
publish_endpoint name p = record {
  kind = EndpointKind.publish;
  family = family_of (parse_addr p.host_ip);
  proto = p.proto;
  bind_ip = p.host_ip;
  port = p.host_port;
  owner = Owner.named name;
}

-- `byKey[key(e)] = e`.
unfoldable pub put : Endpoint → List Endpoint → List Endpoint
unfolding key
put e [] = e ∷ []
put e (x ∷ xs) = if str_eq (key x) (key e) then e ∷ xs else x ∷ put e xs

-- A loop that puts every endpoint.
unfoldable pub put_all : List Endpoint → List Endpoint → List Endpoint
unfolding put
put_all [] eps = eps
put_all (e ∷ es) eps = put_all es (put e eps)

-- The publishes of every container.
unfoldable pub published : List Container → List Endpoint
unfolding publish_endpoint
published [] = []
published (c ∷ cs) = map (publish_endpoint c.name) c.publishes ++ published cs

-- `reported`: the address is not part of the test.
unfoldable pub reported : List Endpoint → Endpoint → Bool
reported eps e = any (λ x. str_eq x.proto e.proto && x.port == e.port) eps

-- The loop over the forwarded ports: a port that has a row already is left out.
unfoldable pub put_forwards : List Endpoint → List Endpoint → List Endpoint → List Endpoint
unfolding put reported
put_forwards own [] eps = eps
put_forwards own (e ∷ es) eps = put_forwards own es (if reported own e then eps else put e eps)

-- What this host serves itself.
unfoldable pub own_endpoints : Facts → List Endpoint
unfolding socket_endpoint published put_all
own_endpoints f = put_all (published f.containers) (put_all (map socket_endpoint f.sockets) [])

unfoldable pub endpoints : Facts → Go (List Endpoint)
unfolding own_endpoints put_forwards forwards
endpoints f =
    forwards f.rules >>= λ fwd. ok (put_forwards (own_endpoints f) fwd.eps (own_endpoints f))

-- `Evaluate`, of a document.
unfoldable pub evaluate_document : Facts → Zone → Go (List Verdict)
unfolding endpoints evaluate
evaluate_document f zone = endpoints f >>= λ eps. evaluate f zone eps
