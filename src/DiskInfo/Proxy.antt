-- ===== src/DiskInfo/Proxy.antt =====
-- pkg/diskinfo/frpc.go: the cache of proxies, a round of its poll, and getProxy. The HTTP answer of the
-- dashboard is a parameter, decoded or an error.
use discoblock.Base.{
  String, ◌⧺◌, Option, none, some, List, [], ◌∷◌, Map, get, put, if◌then◌else◌, str_eq, ◌≡◌, refl,
}
use discoblock.Base.Int.{ℤ, pos}
use discoblock.Text.Decimal.{format_int, format_uint}
use discoblock.Kube.Exec.{Result, ok, err}

-- A value of the configuration: a number, by its `int`, or another value, by what `%d` prints of it.
pub data Setting : Type 0 where
  number : ℤ → Setting
  other_value : String → Setting

-- server.ProxyStatsInfo; a configuration that is no JSON object is `none`.
pub record Proxy : Type 0 where
  pub name : String
  pub status : String
  pub conf : Option (Map Setting)

unfoldable pub store_all : List Proxy → Map Proxy → Map Proxy
unfolding put
store_all [] proxies = proxies
store_all (p ∷ rest) proxies = store_all rest (put proxies p.name p)

-- a round of the poll: an error is logged
abbrev pub poll : Result String (List Proxy) → Map Proxy → Map Proxy
poll (ok found) proxies = store_all found proxies
poll (err e) proxies = proxies

abbrev pub port_of : Option Setting → Result String String
port_of none = err "missing remote_port"
port_of (some (number port)) = ok ("127.0.0.1:" ⧺ format_int port)
port_of (some (other_value text)) = err ("invalid port number: " ⧺ text)

abbrev pub address_of : Option (Map Setting) → Result String String
address_of none = err "invalid config: map[]"
address_of (some conf) = port_of (get conf "remote_port")

abbrev pub on_proxy : Option Proxy → Result String String
on_proxy none = err "proxy not found"
on_proxy (some proxy) =
    if str_eq proxy.status "online"
    then address_of proxy.conf
    else err ("invalid client status: " ⧺ proxy.status)

unfoldable pub get_proxy : Map Proxy → String → String → Result String String
unfolding get format_int
get_proxy proxies name namespace = on_proxy (get proxies (namespace ⧺ "-" ⧺ name))

abbrev web : Proxy
web = record {
  name = "a-b-c";
  status = "online";
  conf = some (("remote_port", number (pos 7000)) ∷ []);
}

get_proxy_runs : get_proxy (store_all (web ∷ []) []) "c" "a-b" ≡ ok "127.0.0.1:7000"
unfolding get_proxy store_all format_uint
get_proxy_runs = refl

-- Pods of two namespaces may have one proxy.
get_proxy_collides :
    (proxies : Map Proxy) → get_proxy proxies "c" "a-b" ≡ get_proxy proxies "b-c" "a"
unfolding get_proxy
get_proxy_collides proxies = refl
