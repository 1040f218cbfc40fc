-- ===== src/Protocol/Parser/Features.antt =====
-- The features of a debugger in the packet qSupported (ckb-gdb-remote-protocol/src/lib.rs).
use ckb_standalone_debugger.Prelude.{
  ℕ, ◌==◌, Option, none, some, List, [], ◌∷◌, Bytes, if◌then◌else◌, bytes_eq,
}
use ckb_standalone_debugger.Prelude.Format.{codes}
use ckb_standalone_debugger.Protocol.Types.{
  GdbFeature, multiprocess, xml_registers, q_reloc_insn, swbreak, hwbreak, fork_events,
  vfork_events, exec_events, v_cont_supported, no_resumed, q_thread_events, Known, yes_feature,
  no_feature, supported, unsupported, value, GdbFeatureSupported,
}
use ckb_standalone_debugger.Protocol.Nom.{Parser, incomplete, Nom}
use ckb_standalone_debugger.Protocol.Parser.Numbers.{from_utf8}

-- The names that the derived `from_str` knows.
abbrev pub feature_names : List (Bytes × GdbFeature)
feature_names =
    (codes "multiprocess", multiprocess)
    ∷ (codes "xmlRegisters", xml_registers)
    ∷ (codes "qRelocInsn", q_reloc_insn)
    ∷ (codes "swbreak", swbreak)
    ∷ (codes "hwbreak", hwbreak)
    ∷ (codes "fork-events", fork_events)
    ∷ (codes "vfork-events", vfork_events)
    ∷ (codes "exec-events", exec_events)
    ∷ (codes "vContSupported", v_cont_supported)
    ∷ (codes "no-resumed", no_resumed)
    ∷ (codes "QThreadEvents", q_thread_events)
    ∷ []

unfoldable pub find_feature : Bytes → List (Bytes × GdbFeature) → Option GdbFeature
find_feature s [] = none
find_feature s ((name, feature) ∷ names) =
    if bytes_eq s name then some feature else find_feature s names

unfoldable pub known : Bytes → Known
unfolding find_feature
known s = elim (find_feature s feature_names) [ some f ↦ yes_feature f | none ↦ no_feature s ]

-- `split_last`
unfoldable pub split_last : Bytes → Option (ℕ × Bytes)
split_last [] = none
split_last (b ∷ bs) = elim (split_last bs) [
  | none ↦ some (b, [])
  | some (last, first) ↦ some (last, b ∷ first)
]

module _ (n : Nom) where
  open n use {tag, is_not, map, map_res, flat_map, separated_pair}

  unfoldable pub gdbfeature : Parser Known
  unfolding known from_utf8
  gdbfeature = map (map_res (is_not (codes ";=")) from_utf8) known

  -- The closure of `gdbfeaturesupported`.
  unfoldable pub feature_supported : Parser GdbFeatureSupported
  unfolding gdbfeature split_last
  feature_supported f = elim (split_last f) [
    | none ↦ incomplete
    | some (last, first) ↦
        if last == b'+'
        then map gdbfeature (λ feat. record { feature = feat; support = supported }) first
        else if last == b'-'
        then map gdbfeature (λ feat. record { feature = feat; support = unsupported }) first
        else map
            (separated_pair gdbfeature (tag (codes "=")) (map_res (is_not (codes ";")) from_utf8))
            (λ (feat, val). record { feature = feat; support = value val }) f
  ]

  unfoldable pub gdbfeaturesupported : Parser GdbFeatureSupported
  unfolding feature_supported
  gdbfeaturesupported = flat_map (is_not (codes ";")) feature_supported
