-- ===== src/Net/State.antt =====
-- The state that chatxz/core/lan_rns.py reads and writes: tables of the Reticulum transport, the
-- pinned serial peers, the known peer addresses, and the path requests handed to the transport.
use chatxz.Prelude.{ℕ, Option, none, List, Str, leb, if◌then◌else◌}
use chatxz.Dict.{Dict}
use chatxz.Net.Iface.{Iface, Root}
use chatxz.Net.Hash.{Bytes}

-- A row of `path_table` is a list: its length, its hop count (slot 2, if it reads as an integer) and
-- its receiving interface (slot 5).
pub record PathEntry : Type 0 where
  pub size : ℕ
  pub hops : Option ℕ
  pub via : Option Iface

-- A row of `announce_table`: its length and the receiving interface of the packet in slot 5.
pub record AnnounceEntry : Type 0 where
  pub size : ℕ
  pub receiving : Option Iface

-- A call of `RNS.Transport.request_path`, on one interface or on all.
pub record Request : Type 0 where
  pub dest : Bytes
  pub on : Option Iface

pub record Net : Type 0 where
  pub roots : List Root
  pub path_table : Dict PathEntry
  pub announces : Dict AnnounceEntry
  pub pins : List Str
  pub known_ips : List Str
  pub requests : List Request

-- `entry[5]` of an entry with more than five slots.
unfoldable pub row_iface : PathEntry → Option Iface
row_iface e = if leb e.size 5 then none else e.via
