-- ===== src/Node/Command/Names.antt =====
-- node/src/command.rs: the texts of `SubstrateCli`.
use nexusguild.Base.{ℕ, String}

-- What the build writes into its environment: `SUBSTRATE_CLI_IMPL_VERSION`,
-- `CARGO_PKG_DESCRIPTION` and `CARGO_PKG_AUTHORS`.
pub record BuildEnv : Type 0 where
  pub cli_impl_version : String
  pub pkg_description : String
  pub pkg_authors : String

pub record CliTexts : Type 0 where
  pub impl_name : String
  pub impl_version : String
  pub description : String
  pub author : String
  pub support_url : String
  pub copyright_start_year : ℕ

unfoldable pub cli_texts : BuildEnv → CliTexts
cli_texts env = record {
  impl_name = "Substrate Node";
  impl_version = env.cli_impl_version;
  description = env.pkg_description;
  author = env.pkg_authors;
  support_url = "support.anonymous.an";
  copyright_start_year = 2017;
}
