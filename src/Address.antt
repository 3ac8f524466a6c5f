-- ===== src/Address.antt =====
-- Process addresses: api/v1beta2/foundationdb_process_address.go. What the code takes from Go's package
-- net is the parameter Net: a net.IP is the list of its bytes, and nil is the empty one.
use Prim.Native.String.{◌++◌ as str_append}
use fdb_kubernetes_operator.Common.{
  map, select, ℕ, String, Bool, false, List, [], ◌∷◌, if◌then◌else◌, ◌==◌, string_eq, is_empty,
}
use fdb_kubernetes_operator.Common.Int.{ℤ, pos, int_eq}

abbrev pub Ip : Type 0
Ip = List ℕ

-- net.ParseIP, which is nil for a text that is no address, net.IP.String(), net.JoinHostPort,
-- strconv.Itoa and slices.Sort.
pub record Net : Type 0 where
  pub parse_ip : String → Ip
  pub ip_string : Ip → String
  pub join_host_port : String → String → String
  pub itoa : ℤ → String
  pub sort : List String → List String

pub record ProcessAddress : Type 0 where
  pub ip_address : Ip
  pub string_address : String
  pub port : ℤ
  pub flags : List (String × Bool)
  pub from_hostname : Bool

-- The literals `ProcessAddress{StringAddress: s}` and `ProcessAddress{IPAddress: ip}`.
abbrev pub of_string : String → ProcessAddress
of_string s = record {
  ip_address = [];
  string_address = s;
  port = pos 0;
  flags = [];
  from_hostname = false;
}

abbrev pub of_ip : Ip → ProcessAddress
of_ip ip = record {
  ip_address = ip;
  string_address = "";
  port = pos 0;
  flags = [];
  from_hostname = false;
}

-- `NewProcessAddress`
unfoldable pub new_process_address : Net → Ip → String → ℤ → List (String × Bool) → ProcessAddress
new_process_address net address string_address port flags =
    let ip = net.parse_ip string_address in
    record {
      ip_address = if is_empty ip then address else ip;
      string_address = if is_empty ip then string_address else "";
      port = port;
      flags = flags;
      from_hostname = false;
    }

unfoldable pub machine_address : Net → ProcessAddress → String
machine_address net a =
    if a.string_address == "" then net.ip_string a.ip_address else a.string_address

unfoldable pub sorted_flags : Net → ProcessAddress → List String
sorted_flags net a = net.sort (map (λ f. f.0) (select (λ f. f.1) a.flags))

-- `strings.Join(flags, ":")`
unfoldable pub join_flags : List String → String
join_flags [] = ""
join_flags (f ∷ fs) = if is_empty fs then f else str_append f (str_append ":" (join_flags fs))

-- `ProcessAddress.String`
unfoldable pub address_string : Net → ProcessAddress → String
unfolding machine_address sorted_flags join_flags
address_string net a =
    let flags = sorted_flags net a in
    let host = net.join_host_port (machine_address net a) (net.itoa a.port) in
    let flagged =
      if is_empty flags then host else str_append host (str_append ":" (join_flags flags)) in
    if a.port == pos 0
    then machine_address net a
    else if a.from_hostname
    then str_append flagged "(fromHostname)"
    else flagged
