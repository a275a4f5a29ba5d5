-- ===== src/Server.antt =====
-- `gdb_stub_init`, `gdb_stub_accept` and `gdb_stub_close` of src/gdb_stub.c. The results of the calls
-- of the socket library are arguments.
use gdb_stub.Prelude.{ℕ, true, false, ◌||◌, List, [], ◌∷◌, ◌++◌, if◌then◌else◌}
use gdb_stub.Prelude.Int.{ℤ, pos, minus_one}
use gdb_stub.Context.{Context, initial_context}
use gdb_stub.Thread.{is_negative}

-- The arguments are what `socket`, `bind` and `listen` return, in the order of the calls. The last part of
-- the result is the descriptors that are closed.
unfoldable pub gdb_stub_init : ℕ → ℤ → ℤ → ℤ → ℤ × Context × List ℤ
gdb_stub_init port socket_result bind_result listen_result =
    let ctx = initial_context port in
    let opened = record ctx { stub = record ctx.stub { socket_fd = socket_result } } in
    if is_negative socket_result
    then (minus_one, opened, [])
    else if is_negative bind_result || is_negative listen_result
    then (minus_one, opened, socket_result ∷ [])
    else (pos 0, record opened { stub = record opened.stub { enabled = true } }, [])

-- what `accept` returns
unfoldable pub gdb_stub_accept : Context → ℤ → ℤ × Context
gdb_stub_accept ctx accept_result =
    let taken = record ctx { stub = record ctx.stub { client_fd = accept_result } } in
    if is_negative accept_result
    then (minus_one, taken)
    else (pos 0, record taken { stub = record taken.stub { connected = true } })

-- the context afterwards, and the descriptors that are closed
unfoldable pub gdb_stub_close : Context → Context × List ℤ
gdb_stub_close ctx = (
  record ctx {
    stub = record ctx.stub {
      client_fd = if is_negative ctx.stub.client_fd then ctx.stub.client_fd else minus_one;
      socket_fd = if is_negative ctx.stub.socket_fd then ctx.stub.socket_fd else minus_one;
      connected = false;
      enabled = false;
    };
  },
  (if is_negative ctx.stub.client_fd then [] else ctx.stub.client_fd ∷ [])
      ++ (if is_negative ctx.stub.socket_fd then [] else ctx.stub.socket_fd ∷ []),
)
