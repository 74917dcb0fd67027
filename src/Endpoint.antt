-- ===== src/Endpoint.antt =====
-- trpc/Endpoint.h: the constructors, which fill a sockaddr_in. `inet_addr` is a parameter.
use Prim.Native.String.{String}
use t_rpc.Base.{ℕ}
use t_rpc.Base.Word.{swap32, swap16}
use t_rpc.Kernel.{SockAddr}

abbrev pub af_inet : ℕ
af_inet = 2

-- Endpoint(const char *ip, uint16_t port); the std::string constructor calls it.
unfoldable pub endpoint_of_text : (inet_addr : String → ℕ) → String → ℕ → SockAddr
endpoint_of_text inet_addr ip port = record {
  sin_family = af_inet;
  sin_addr = inet_addr ip;
  sin_port = swap16 port;
}

-- Endpoint(uint32_t ip, uint16_t port)
unfoldable pub endpoint_of_number : ℕ → ℕ → SockAddr
endpoint_of_number ip port = record {
  sin_family = af_inet;
  sin_addr = swap32 ip;
  sin_port = swap16 port;
}
