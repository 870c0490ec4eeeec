-- ===== src/Node/Command/Main.antt =====
-- node/src/main.rs: the entry point.
use nexusguild.Base.{Bool}
use nexusguild.Node.Cli.{CommandTypes, Cli}
use nexusguild.Node.Service.Host.{Types, Host, NetworkBackendType}
use nexusguild.Node.Command.Host.{CliTypes, CliHost, Run}
use nexusguild.Node.Command.Dispatch.{run}

-- `main`, with the arguments already parsed.
unfoldable pub main :
    (Y : Types) (X : CommandTypes) (Z : CliTypes)
    → CliHost Y X Z
    → (NetworkBackendType → Host Y)
    → Bool
    → Cli X
    → Run Y X Z (Unit {0})
main Y X Z H backend runtime_benchmarks cli = run Y X Z H backend runtime_benchmarks cli
