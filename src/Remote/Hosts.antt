-- ===== src/Remote/Hosts.antt =====
-- net.SplitHostPort, the host that it returns (empty on an error).
use notation.Base.{
  Bool, false, not, ◌&&◌, ◌||◌, none, some, [], ◌∷◌, ◌==◌, nat_eq, contains, if◌then◌else◌, Text,
}
use notation.Base.Strings.{cut, last_index, take}

-- ":" and a port without another colon
abbrev only_port : Text → Bool
only_port [] = false
only_port (c ∷ port) = c == b':' && not (contains port b':')

-- The host between the brackets; `rest` follows the opening one.
bracketed_host : Text → Text
bracketed_host rest =
    let (host, after, found) = cut b']' rest in
    if found && only_port after && not (contains rest b'[') && not (contains after b']')
    then host
    else []

plain_host : Text → Text
plain_host host_port = elim (last_index b':' host_port) [
  | none ↦ []
  | some i ↦
      if contains (take i host_port) b':' || contains host_port b'[' || contains host_port b']'
      then []
      else take i host_port
]

unfoldable pub split_host : Text → Text
unfolding bracketed_host plain_host
split_host [] = []
split_host (c ∷ rest) = if c == b'[' then bracketed_host rest else plain_host (c ∷ rest)
