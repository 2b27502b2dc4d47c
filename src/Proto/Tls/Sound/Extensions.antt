-- ===== src/Proto/Tls/Sound/Extensions.antt =====
-- The extensions of a hello message are read without a panic.
use custom_built_network_ana.Base.{ℕ, ◌≤◌, ◌<◌, min, some, [], ◌∷◌, ◌++◌, ◌≡◌, ◌∙◌, arith}
use custom_built_network_ana.Bytes.{Reader, remaining}
use custom_built_network_ana.Bytes.Ensures.{
  IsValid, Ensures, bind, bind_same, bind_attempt, on_test, weaken, eval_lem, pure_lem, lift_lem,
}
use custom_built_network_ana.Bytes.Reads.{be_u16_lem, sub_lem, here_lem}
use custom_built_network_ana.Bytes.Loop.{Keeps}
use custom_built_network_ana.Proto.{TlsHelloKind}
use custom_built_network_ana.Proto.Tls.{
  Extensions, store, keep_extension, on_extension, extension_round, read_extensions,
}
use custom_built_network_ana.Proto.Tls.Lists.{is_grease}
use custom_built_network_ana.Proto.Tls.Lists.Known.{
  AreKnown, AreKnown-append, sub_loop_lem, read_sni_lem, read_alpn_lem, read_groups_lem,
  read_points_lem, read_supported_versions_lem,
}

-- The extensions so far: no GREASE value among them, and a version no lower than the legacy one.
pub record IsExtensions (legacy : ℕ) (e : Extensions) : Type 0 where
  pub extensions : AreKnown e.extensions
  pub groups : AreKnown e.groups
  pub version : legacy ≤ e.negotiated_version

module _ (legacy : ℕ) (kind : TlsHelloKind) where
  store_lem :
      (e : Extensions) (ext_type : ℕ) (r : Reader)
      → IsValid r
      → IsExtensions legacy e
      → Ensures (λ x _. IsExtensions legacy x) (store kind e ext_type r)
  unfolding store
  store_lem e ext_type r v i =
      on_test _ _ _ r
        (λ _. bind_attempt _ _ r (read_sni_lem r v) (pure_lem _ v i) λ name s w _.
          pure_lem _ w
            (record { extensions = i.extensions; groups = i.groups; version = i.version }))
        λ _.
          on_test _ _ _ r
            (λ _. bind_attempt _ _ r (read_alpn_lem r v) (pure_lem _ v i) λ list s w _.
              pure_lem _ w
                (record { extensions = i.extensions; groups = i.groups; version = i.version }))
            λ _.
              on_test _ _ _ r
                (λ _. bind _ _ r (read_groups_lem e.groups r v i.groups) λ gs s w known.
                  pure_lem _ w
                    (record { extensions = i.extensions; groups = known; version = i.version }))
                λ _.
                  on_test _ _ _ r
                    (λ _. bind _ _ r (read_points_lem e.point_formats r v) λ ps s w _.
                      pure_lem _ w (record {
                        extensions = i.extensions;
                        groups = i.groups;
                        version = i.version;
                      }))
                    λ _.
                      on_test _ _ _ r
                        (λ _.
                          bind_attempt _ _ r (read_supported_versions_lem kind r v)
                            (pure_lem _ v (record {
                              extensions = i.extensions;
                              groups = i.groups;
                              version = omega (arith, i.version);
                            }))
                            λ x s w _. pure_lem _ w (record {
                              extensions = i.extensions;
                              groups = i.groups;
                              version = omega (arith, i.version);
                            }))
                        λ _. pure_lem _ v i

  on_extension_lem :
      (e : Extensions) (ext_type : ℕ) (d r s : Reader)
      → IsValid d
      → IsValid s
      → IsExtensions legacy e
      → (s.buf ≡ r.buf) × (r.pos < s.pos)
      → Ensures (Keeps (IsExtensions legacy) r) (on_extension kind e ext_type (some d) s)
  unfolding on_extension keep_extension
  on_extension_lem e ext_type d r s vd w i ahead =
      on_test (is_grease ext_type) _ _ s (λ _. pure_lem _ w (i, ahead))
        λ known.
          let kept : Extensions = record e { extensions = e.extensions ++ ext_type ∷ [] } in
          let next : IsExtensions legacy kept = record {
            extensions = AreKnown-append e.extensions ext_type i.extensions known;
            groups = i.groups;
            version = i.version;
          } in
          bind_same _ _ s w
            (lift_lem s w _ (
              eval_lem (store kind kept ext_type) d (store_lem kept ext_type d vd next)
                (λ _ _ _ q. q)))
            λ x j. pure_lem _ w (j, ahead)

  extension_round_lem :
      (e : Extensions) (r : Reader)
      → IsValid r
      → IsExtensions legacy e
      → Ensures (Keeps (IsExtensions legacy) r) (extension_round kind e r)
  unfolding extension_round on_extension
  extension_round_lem e r v i = bind_same _ _ r v (here_lem r v) λ t _.
      on_test _ _ _ r
        (λ _. bind _ _ r (be_u16_lem r v) λ ext_type s w (_, _, m).
          bind _ _ s (be_u16_lem s w) λ len s' w' (_, _, m').
            bind_attempt _ _ s' (sub_lem len "tls extension" s' w') (pure_lem _ w' i)
              λ d s'' w'' (vd, _, _, _, m'').
                on_extension_lem e ext_type d r s'' vd w'' i
                  (m''.buf ∙ m'.buf ∙ m.buf, omega (arith, m.pos, m'.pos, m''.pos)))
        λ _. pure_lem _ v i

  pub read_extensions_lem :
      (e : Extensions) (r : Reader)
      → IsValid r
      → IsExtensions legacy e
      → Ensures (λ x _. IsExtensions legacy x) (read_extensions kind e r)
  unfolding read_extensions
  read_extensions_lem e r v i = bind_same _ _ r v (here_lem r v) λ t _.
      on_test _ _ _ r
        (λ _. bind _ _ r (be_u16_lem r v) λ total s w _. bind_same _ _ s w (here_lem s w) λ u _.
          weaken
            (sub_loop_lem (IsExtensions legacy) (min total (remaining u)) "tls extensions"
              (extension_round kind) extension_round_lem e s w i)
            λ x s' w' (j, _). j)
        λ _. pure_lem _ v i
