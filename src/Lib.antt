-- ===== src/Lib.antt =====
-- Models of the notation command line, which signs and verifies artifacts in OCI registries and
-- in OCI layouts on disk.
--
-- How the program is built. A command of cmd/notation checks its arguments (Args), its
-- experimental flags (PreRunE) and then runs its handler (RunE). The handlers of sign, verify,
-- list and inspect build a repository (registry.go, over pkg/auth for credentials and
-- pkg/configutil for the configuration), resolve the user's reference to a digest in it
-- (manifest.go), and call notation-go. Login and logout store and erase the credentials that the
-- registry's clients use. The commands under cmd/notation/cert work on files of the trust store,
-- those under cmd/notation/policy on the trust policy, and the commands for keys on
-- notation-go's list of signing keys.
--
-- How it is modelled. A Go function that returns (A, error) and acts outside is a `Cmd S A =
-- World S → Result A × World S` (Base/Exec): the world holds the writes to stdout and stderr in
-- their order, the transport of the HTTP client, and a state S of whatever else the command acts
-- on. The world comes back beside an error too. `m >>= f` is `a, err := m; if err != nil {
-- return err }`. Errors are values (Base/Errors) that keep what errors.Is and errors.As look
-- for. Strings are lists of bytes.
--
-- The files, and the code that each is about:
--   Base                    Go's strings, maps, errors and early returns;
--                           cmd/notation/internal/errors and internal/slices are among them
--   Auth                    pkg/auth, and pkg/configutil but for ResolveKey; the sync.Once of once.go
--                           is in Auth/Once
--   Commands                what the commands of cmd/notation tell cobra of themselves: shared flags
--                           (internal/cmd, common.go, HideFlags) in Options, the commands in
--                           Artifacts, Sessions and Certs, main.go in Root; what cobra and pflag ask
--                           of commands in Checks, and the functions given to cobra in Runs
--   Envelope                internal/envelope
--   Experimental            internal/experimental
--   Flags                   internal/cmd/flags.go, the logging options of internal/cmd/options.go, and
--                           internal/trace/context.go
--   Manifest                cmd/notation/manifest.go
--   Remote, Registry        cmd/notation/registry.go, cmd/notation/common.go, internal/version
--   Signer                  internal/cmd/signer.go, the signer options, and ResolveKey
--   Sign, Verify, Listing   cmd/notation/sign.go, verify.go and list.go
--   Inspect                 cmd/notation/inspect.go, with its output in Inspect/Output
--   Login                   cmd/notation/login.go and logout.go
--   Keys                    cmd/notation/key.go, and the lists of plugin.go and version.go
--   Policy                  cmd/notation/policy/import.go and show.go
--   Tree                    internal/tree
--   Disk                    internal/osutil/file.go, over a file system of files and directories;
--                           whole files are read and written in Disk/Files
--   Confirm                 cmd/notation/internal/cmdutil
--   TrustStore              cmd/notation/internal/truststore; ListCerts is in TrustStore/Walk
--   Cert                    cmd/notation/cert/add.go, delete.go and show.go; list.go is in Cert/Lists,
--                           generateTest.go in Cert/Generate
--   Trace                   internal/trace/transport.go
--   Tests                   runs on concrete inputs
-- A Go name keeps its words: resolveReference is `resolve_reference`, ErrorVerificationFailed is
-- `verification_failed`. Children named Laws, Layout, Failures, Copies, Addition, Removal, Quiet,
-- Readings, Shown, Lines, Session, Fuel, Fresh, Keeping, Imports, Children, Reached, Complete,
-- Single, Fingerprints, Progress, Gate and Whole hold proofs.
--
-- What is a parameter. oras-go, go-digest, notation-go, notation-core-go and the credential
-- helpers are records of functions that the commands take (RegistryLib, SignLib, VerifyLib,
-- SignerLib, TrustLib, InspectLib, LoginLib, KeyLib, PluginLib, PolicyLib, GenerateLib,
-- HelperClient), and nothing is assumed about them but where a theorem names it: that a helper
-- gives back what was stored (IsLawful) and forgets what it erases (IsForgetful), that changing
-- the signing keys loads them, runs a function and saves them (IsLoadExecSave), that the path of
-- the configuration's files is a join of their names (JoinsTo), that SHA-1 gives 20 bytes, and
-- that cobra, unless asked for help, ends a command with the error of its Args or its PreRunE, and
-- that the command succeeds only if its RunE does after them (Cobra of Commands/Runs).
-- What the system refuses, such as a missing permission, is the parameter `denied` of Disk.
--
-- Termination. All loops of the program that are modelled walk a finite list, a text, a tree or
-- the pages of a repository's listing (Pages of Manifest, which come to an end), and are
-- structural recursion here, but for the walk of ListCerts over directories: it is recursion on
-- fuel, two more than the depth to which ListCerts lists, since deeper directories are skipped.
--
-- What is not exact. Folding of case and trimming of space are those of ASCII. %q escapes the
-- quote and the backslash only. Numbers and paths are left out of some error texts (an unknown
-- input type, a source that is not a regular file). Writes to stdout and stderr do not fail. The
-- alignment of tables, the order in which Go walks a map, logging, permissions of files, and the
-- expiry of a context are not modelled. A panic of the Go runtime that ends the process, as of
-- IsRegistryInsecure where the first LoadConfigOnce has failed (Settings of Remote, nil_panic),
-- is an error of the model, and what a command would do after it is not modelled. In Registry the
-- trace of HTTP calls is a mark on the transport; Trace has its log. A path is absolute and
-- clean, and the file system has no links.
--
-- What is not modelled. What cobra and pflag do with a command line, but for the order in which
-- cobra calls Args, PreRunE and RunE; the encoding of JSON, which is the Go library's; and the
-- end-to-end tests.
pub mod Base
pub mod Auth
pub mod Envelope
pub mod Experimental
pub mod Flags
pub mod Manifest
pub mod Remote
pub mod Registry
pub mod Signer
pub mod Sign
pub mod Verify
pub mod Tree
pub mod Listing
pub mod Inspect
pub mod Login
pub mod Keys
pub mod Policy
pub mod Commands
pub mod Disk
pub mod Confirm
pub mod TrustStore
pub mod Cert
pub mod Trace
pub mod Tests
