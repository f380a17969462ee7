-- ===== src/Pdu/Parse.antt =====
-- The parsing functions of src/sacn/pdu.c. `buflen` is the length of the buffer; what a function
-- writes through its pointers is taken and given back, also where it answers false.
use s_acn.Prelude.{
  ℕ, ◌+◌, ◌-◌, ◌*◌, ◌/◌, ◌%◌, ◌^◌, Array, set, for_range, Bool, true, false, ◌||◌, not, ltb, ◌==◌,
  if◌then◌else◌, Option, none, some,
}
use s_acn.Pdu.Wire.{Wire, from, write, bit, c_string}

-- kSacnSourceNameMaxLen
abbrev pub source_name_max_len : ℕ
source_name_max_len = 64

-- SacnRemoteSource; a CID, of 16 bytes, is the number that they write.
pub record RemoteSource : Type 0 where
  pub handle : ℕ
  pub cid : ℕ
  pub name : Array

-- SacnRecvUniverseSubrange, with the bit patterns of its `int`s
pub record SlotRange : Type 0 where
  pub start_address : ℕ
  pub address_count : ℕ

-- SacnRecvUniverseData; `values` is a position in the packet that was parsed.
pub record UniverseData : Type 0 where
  pub universe_id : ℕ
  pub priority : ℕ
  pub preview : Bool
  pub is_sampling : Bool
  pub sync_universe : ℕ
  pub sequence : ℕ
  pub options : ℕ
  pub start_code : ℕ
  pub slot_range : SlotRange
  pub values : ℕ

-- What a data packet is parsed into.
pub record DataPacket : Type 0 where
  pub source_info : RemoteSource
  pub terminated : Bool
  pub universe_data : UniverseData

-- `none` is a NULL list of universes, `some` its position.
pub record DiscoveryPage : Type 0 where
  pub page : ℕ
  pub last_page : ℕ
  pub universes : Option ℕ
  pub num_universes : ℕ

module _ (W : Wire) (buf : Array) (buflen : ℕ) where
  -- The property value count, which counts the start code too.
  abbrev pub value_count : ℕ
  value_count = W.unpack_u16b buf 85

  -- The number of slots: an `int`, of which this is the bit pattern.
  abbrev pub slots : ℕ
  slots = (value_count + (2 ^ 32 - 1)) % 2 ^ 32

  -- The vectors and fixed values of a data packet are wrong.
  abbrev pub not_data : Bool
  not_data =
      not (W.unpack_u32b buf 2 == 2)
      || (not (buf 79 == 2)
          || not (buf 80 == 0xa1)
          || not (W.unpack_u16b buf 81 == 0)
          || not (W.unpack_u16b buf 83 == 1))

  -- The slots and where they stand, which is written before their end, 88 - 1 + value_count, is
  -- checked.
  abbrev pub ranged : UniverseData → UniverseData
  ranged u = record u {
    slot_range = record { start_address = 1; address_count = slots };
    values = 88;
  }

  abbrev pub parsed : RemoteSource → UniverseData → DataPacket
  parsed s u = record {
    source_info = record s {
      name =
          set (write s.name 0 (c_string (from buf 6) source_name_max_len) source_name_max_len) 63 0;
    };
    terminated = bit (buf 74) 6;
    universe_data = record u {
      priority = buf 70;
      sync_universe = W.unpack_u16b buf 71;
      sequence = buf 73;
      options = buf 74;
      preview = bit (buf 74) 7;
      universe_id = W.unpack_u16b buf 75;
      start_code = buf 87;
    };
  }

  unfoldable pub parse_sacn_data_packet : DataPacket → Bool × DataPacket
  parse_sacn_data_packet out =
      if ltb buflen 88
      then (false, out)
      else if not_data
      then (false, out)
      else if ltb buflen (87 + value_count)
      then (false, record out { universe_data = ranged out.universe_data })
      else (true, parsed out.source_info (ranged out.universe_data))

  unfoldable pub parse_framing_layer_vector : ℕ → Bool × ℕ
  parse_framing_layer_vector vector =
      if ltb buflen 6 then (false, vector) else (true, W.unpack_u32b buf 2)

  unfoldable pub parse_sacn_universe_discovery_layer : DiscoveryPage → Bool × DiscoveryPage
  parse_sacn_universe_discovery_layer out =
      if ltb buflen 8
      then (false, out)
      else if ltb (W.pdu_length buf 0) 8
      then (false, out)
      else if not (W.unpack_u32b buf 2 == 1)
      then (false, out)
      else (
        true,
        record {
          page = buf 6;
          last_page = buf 7;
          universes = if ltb 8 buflen then some 8 else none;
          num_universes = (W.pdu_length buf 0 - 8) / 2;
        },
      )

module _ (W : Wire) where
  unfoldable pub parse_sacn_universe_list : Array → ℕ → Array → Array
  parse_sacn_universe_list buf num_universes universe_list =
      for_range 0 num_universes (λ i list. set list i (W.unpack_u16b buf (i * 2))) universe_list
