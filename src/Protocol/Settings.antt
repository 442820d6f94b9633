-- ===== src/Protocol/Settings.antt =====
-- What `parseConfigPutMessage` stores, and that the next start reads it.
use treiber.Base.{
  ℕ, zero, suc, ◌+◌, ◌≤◌, ◌≡◌, refl, ap, true, false, some, List, [], ◌∷◌, ◌++◌, map, append-nil,
  arith, ltb, lt→ltb_false, if◌then◌else◌,
}
use mathlib.Core.Path.{subst}
use treiber.Buffer.Lines.{c_string}
use Prim.Native.String.{String}
use treiber.Base.Int.{ℤ, IsInt}
use treiber.Adapters.Texts.{dotted, parse_ip_string-dotted, InRange as IsByteAddress}
use treiber.AppConfig.{AppConfig, NsIpAddress, read, write}
use treiber.AppConfig.RoundTrip.{InRange, read-write}
use treiber.Driver.{Application, codes}
use treiber.Protocol.{Outcome, names_loop, change_config, parse_config_put_message, or_keep}
use treiber.Protocol.Document.{
  Json, Items, Members, string, int, as_int, as_array, size, object, member, end, Rapidjson, found,
  as_object, as_string, member_of, find_member, lookup,
}

-- Where the file can be read and "data" is an object, the message is not answered, and the stored file is
-- read as the changed configuration, with each name cut in front of its first NUL.
pub parse_config_put_message-read :
    (lib : Rapidjson) (doc : Json) (app : Application) (ms : Members) (file rest : List ℕ)
    (c c' : AppConfig)
    → member_of as_object "data" doc ≡ some (found ms)
    → app.conf_file ≡ some file
    → read file ≡ some (c, rest)
    → change_config lib doc c ≡ some c'
    → InRange c'
    → (o : Outcome) × (stored : List ℕ) × (parse_config_put_message lib doc app ≡ some o)
      × (o.sent ≡ [])
      × (o.app.conf_file ≡ some stored)
      × (read stored ≡ some (record c' { names = map c_string c'.names }, []))
unfolding parse_config_put_message
parse_config_put_message-read lib doc app ms file rest c c' d f r g i = (
  record {
    sent = [];
    app = record app { conf_file = some (write c') };
    running = true;
    ended = false;
  },
  write c',
  rw (d, f, r, g) refl,
  refl,
  refl,
  subst (λ s. read s ≡ some (record c' { names = map c_string c'.names }, []))
      (append-nil (write c')) (read-write c' [] i),
)

-- A message that puts the addresses, the port and the bits of the subnet.
abbrev pub settings : Json → Members → String → ℤ → String → ℤ → Json
settings type ms server port adapter bits = object (
    member "type" type (
      member "on" (string "config") (
        member "data" (object ms) (
          member "serverIp" (string server) (
            member "serverPort" (int port)
              (member "adapterIp" (string adapter) (member "adapterSubnetBits" (int bits) end)))))))

-- The configuration with what such a message puts.
abbrev pub with_settings : AppConfig → NsIpAddress → ℤ → NsIpAddress → ℤ → AppConfig
with_settings c a port b bits = record c {
  server_ip = a;
  server_port = port;
  adapter_ip = b;
  adapter_subnet_bits = bits;
}

change_config-settings :
    (lib : Rapidjson) (type : Json) (ms : Members) (server adapter : String) (a b : NsIpAddress)
    (port bits : ℤ) (c : AppConfig)
    → codes server ≡ dotted a
    → codes adapter ≡ dotted b
    → IsByteAddress a
    → IsByteAddress b
    → change_config lib (settings type ms server port adapter bits) c
      ≡ some (with_settings c a port b bits)
unfolding change_config member_of find_member lookup as_string as_int as_array
change_config-settings lib type ms server adapter a b port bits c e f h k =
    rw (e, f, parse_ip_string-dotted a h, parse_ip_string-dotted b k) refl

settings-InRange :
    (c : AppConfig) (a b : NsIpAddress) (port bits : ℤ)
    → InRange c
    → IsInt port
    → IsInt bits
    → InRange (with_settings c a port b bits)
settings-InRange c a b port bits i p q = record {
  bits = q;
  port = p;
  level = i.level;
  count = i.count;
  sizes = i.sizes;
}

-- Where the stored file can be read, a message that puts two addresses in dotted form, a port and the bits of
-- the subnet is not answered, and the file that is stored then is read with these four, the server's
-- address as the server's and the adapter's as the adapter's, and with the level and the names of
-- before, each name cut in front of its first NUL.
pub put_settings-read :
    (lib : Rapidjson) (type : Json) (ms : Members) (server adapter : String) (a b : NsIpAddress)
    (port bits : ℤ) (app : Application) (file rest : List ℕ) (c : AppConfig)
    → app.conf_file ≡ some file
    → read file ≡ some (c, rest)
    → InRange c
    → codes server ≡ dotted a
    → codes adapter ≡ dotted b
    → IsByteAddress a
    → IsByteAddress b
    → IsInt port
    → IsInt bits
    → (o : Outcome) × (stored : List ℕ) × (parse_config_put_message lib
          (settings type ms server port adapter bits)
          app
        ≡ some o)
      × (o.sent ≡ [])
      × (o.app.conf_file ≡ some stored)
      × (read stored
          ≡ some (record (with_settings c a port b bits) { names = map c_string c.names }, []))
unfolding member_of find_member lookup as_object
put_settings-read lib type ms server adapter a b port bits app file rest c f r i e k h l p q =
    parse_config_put_message-read lib (settings type ms server port adapter bits) app ms file rest c
      (with_settings c a port b bits) refl f r
      (change_config-settings lib type ms server adapter a b port bits c e k h l)
      (settings-InRange c a b port bits i p q)

-- The members of "data" are never looked at: a document with no other members than these three changes
-- nothing.
pub change_config_data_ignored :
    (lib : Rapidjson) (type on data_member : Json) (c : AppConfig)
    → change_config lib
        (object (member "type" type (member "on" on (member "data" data_member end))))
        c
      ≡ some c
unfolding change_config member_of find_member lookup
change_config_data_ignored lib type on data_member c = refl

-- As `PopBack` makes no array longer, the loop over the names ends within as many rounds as the array has
-- elements: any two fuels of that size give the same.
pub names_loop-size :
    (lib : Rapidjson) (m n i : ℕ) (items : Items) (names : List (List ℕ))
    → ((js : Items) → size (lib.pop_back js).1 ≤ size js)
    → size items ≤ i + m
    → size items ≤ i + n
    → names_loop lib m i items names ≡ names_loop lib n i items names
unfolding names_loop
names_loop-size lib zero zero i items names p h k = refl
names_loop-size lib zero (suc n) i items names p h k =
    rw (lt→ltb_false i (size items) (omega (arith, h))) refl
names_loop-size lib (suc m) zero i items names p h k =
    rw (lt→ltb_false i (size items) (omega (arith, k))) refl
names_loop-size lib (suc m) (suc n) i items names p h k =
    let q = p items in
    let left = (lib.pop_back items).1 in
    let names' = or_keep (as_string (lib.pop_back items).0) names (λ s. names ++ (codes s ∷ [])) in
    ap (λ r. if ltb i (size items) then r else names)
      (names_loop-size lib m n (suc i) left names' p (omega (arith, q, h)) (omega (arith, q, k)))
