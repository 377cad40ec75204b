-- ===== src/Lib.antt =====
-- AgentSecure Community keeps real secrets from coding agents. An agent sees virtual tokens; a
-- local gateway, a proxy and MCP tools exchange them for real secrets after the policy has
-- allowed the destination.
--
-- Parts and files:
--   Base      shared helpers: text, dictionaries, results, the audit log as a list of events
--   Model     the records of agentsecure/core/models.py
--   Network   agentsecure/implementations/policy.py (destination validator, policy engine) and
--             agentsecure/core/command_metadata.py
--   Duration  agentsecure/core/time.py, parse_duration_seconds
--   Grants    agentsecure/implementations/grant_store.py
--   Resolver  agentsecure/implementations/secrets.py, the token resolvers
--   Secrets   agentsecure/interfaces/key_store.py and
--             agentsecure/implementations/encrypted_secret_store.py
--   Aliases   agentsecure/core/secret_aliases.py: the vault of aliases and the bindings of a run
--   Broker    agentsecure/core/capabilities.py and the virtual environment and token map of
--             agentsecure/implementations/secrets.py; Broker/Allocator is about
--             agentsecure/core/policy_ports.py
--   Mesh      agentsecure/mesh: the policy between agents, messages, approvals, redaction, and the
--             environment of a launched agent
--   Keys      agentsecure/core/key_service.py
--   Crypto    agentsecure/crypto/cipher.py, and the encrypted store with this cipher
--   Config    agentsecure/core/config.py: the loader, from a JSON value to the configuration
--   Guard     agentsecure/guard/sanitizer.py, agentsecure/guard/network.py and
--             agentsecure/workspace/rewriter.py
--   Policy    agentsecure/core/policy_mutation.py, policy_validation.py and policy_response.py
--   Workspace agentsecure/workspace/apply.py, for a project without links and a workspace
--             whose links lead to files or to nothing
--   Bindings  agentsecure/core/runtime_bindings.py
--   Tests     the same definitions at concrete inputs
--
-- How they interact: the aliases component puts grants into the grant store and gives the run
-- bindings, and `create_key` puts one grant for a project; the resolvers read the bindings, the
-- grants and the secret store; most operations append to the audit log. A change of the policy goes
-- through the validation, the port allocator and the loader, and its answer has the endpoints.
--
-- How state corresponds: a store that the code keeps in a JSON file is a dictionary, passed to
-- an operation and returned by it, so that what an operation reads and writes is written out.
-- A dictionary is an association list in insertion order. Text is the list of its code points.
-- An exception is a value of `Result`, with the state as it is where the code raised. Loops are
-- structural recursion on the list they walk, but for three that have fuel: the digits of a number
-- have one more than the number (Base/Digits is about why that is enough), the keystream of the
-- cipher has its size, since each round adds a byte or more, and the search for a port has the
-- number of used ports. Python integers are natural numbers (times, counts and ports), and
-- integers where a configuration is read.
--
-- Parameters: DNS (`getaddrinfo`), the parser of IP addresses, URL splitting and quoting, random
-- tokens, hashes and HMAC, UTF-8, base64, Python's `str`, `int` and `float` of a JSON value, the
-- clock. Case mapping, stripping and the digits of a duration are those of ASCII.
--
-- Not modelled: the text of JSON files (a file is the JSON value in it), and sockets, processes,
-- screens and the clock, which are input and output: the command line, the API server, the daemon
-- and the cloud client. The gateway proxy, the MCP tools, discovery, the scanner and the
-- materializer of workspaces are not part of this library.
pub mod Base
pub mod Model
pub mod Network
pub mod Duration
pub mod Grants
pub mod Resolver
pub mod Secrets
pub mod Aliases
pub mod Broker
pub mod Mesh
pub mod Keys
pub mod Crypto
pub mod Config
pub mod Guard
pub mod Policy
pub mod Workspace
pub mod Bindings
mod Tests
