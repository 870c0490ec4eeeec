-- ===== src/Node/Build.antt =====
-- node/build.rs: the build script of the node.

-- What `substrate_build_script_utils` provides; the output is what a script tells Cargo.
pub record BuildUtils : Type 1 where
  pub Output : Type 0
  pub generate_cargo_keys : Output → Output
  pub rerun_if_git_head_changed : Output → Output

-- `main`
unfoldable pub build_main : (U : BuildUtils) → U.Output → U.Output
build_main U output = U.rerun_if_git_head_changed (U.generate_cargo_keys output)
