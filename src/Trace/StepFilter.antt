-- ===== src/Trace/StepFilter.antt =====
-- dbg_trace.cpp: the step filter that `WinDbgClient::Trace` installs before it steps.
pub mod Split
pub mod Batches
pub mod Tests
use windbg_agent.Base.Split.{getlines, non_empty}
use windbg_agent.Base.{
  ℕ, zero, suc, ◌+◌, Bool, true, false, not, ◌&&◌, ◌||◌, List, [], ◌∷◌, ◌++◌, map, Bytes, codes,
  ◌==◌, leb, if◌then◌else◌, is_empty, length, take, drop,
}

-- `DEFAULT_STEP_FILTER`
unfoldable pub default_step_filter : Bytes
default_step_filter =
    codes "ntdll!Rtl*;ntdll!__*;"
    ++ (codes "ntdll!memset;ntdll!memcpy;ntdll!memcmp;ntdll!memmove;"
        ++ (codes "ntdll!wcs*;ntdll!str*;"
            ++ (codes "kernel32!HeapAlloc;kernel32!HeapFree;kernel32!LocalAlloc;kernel32!LocalFree;"
                ++ (codes "kernelbase!HeapAlloc;kernelbase!HeapFree;"
                    ++ (codes "ntdll!RtlAllocateHeap;ntdll!RtlFreeHeap;ntdll!RtlReAllocateHeap;"
                        ++ (codes "ntdll!RtlEnterCriticalSection;ntdll!RtlLeaveCriticalSection;"
                            ++ (codes
                                  "ntdll!RtlTryEnterCriticalSection;kernel32!InitializeCriticalSection;"
                                ++ (codes
                                      "kernel32!EnterCriticalSection;kernel32!LeaveCriticalSection;"
                                    ++ (codes
                                          "kernel32!TryEnterCriticalSection;kernel32!DeleteCriticalSection;"
                                        ++ (codes
                                              "ntdll!RtlCompareMemory;ntdll!RtlCopyMemory;ntdll!RtlZeroMemory;ntdll!RtlFillMemory;"
                                            ++ (codes
                                                  "ntdll!__security_check_cookie;ntdll!__report_gsfailure;*!__crt*;*!__security*;"
                                                ++ (codes "nt!ExAllocatePool*;nt!ExFreePool*;"
                                                    ++ (codes
                                                          "nt!KeAcquireSpinLock*;nt!KeReleaseSpinLock*;nt!KeTryToAcquireSpinLock*;"
                                                        ++ (codes
                                                            "nt!KeEnterCriticalRegion;nt!KeLeaveCriticalRegion;"
                                                            ++ (codes "nt!Rtl*;nt!__*;"
                                                            ++ (codes
                                                            "nt!memset;nt!memcpy;nt!memcmp;nt!memmove;"
                                                            ++ codes
                                                            "nt!wcs*;nt!str*"))))))))))))))))

-- `isxdigit`
unfoldable pub is_xdigit : ℕ → Bool
is_xdigit c =
    (leb b'0' c && leb c b'9') || ((leb b'a' c && leb c b'f') || (leb b'A' c && leb c b'F'))

unfoldable pub all_xdigits : Bytes → Bool
unfolding is_xdigit
all_xdigits [] = true
all_xdigits (c ∷ s) = is_xdigit c && all_xdigits s

-- `sym.size() > 2 && sym[0] == '0' && (sym[1] == 'x' || sym[1] == 'X')`
unfoldable pub has_hex_prefix : Bytes → Bool
has_hex_prefix (a ∷ b ∷ c ∷ s) = a == b'0' && (b == b'x' || b == b'X')
has_hex_prefix _ = false

unfoldable pub is_hex : Bytes → Bool
unfolding has_hex_prefix all_xdigits
is_hex sym = has_hex_prefix sym || (not (is_empty sym) && all_xdigits sym)

-- The entries that the user's symbols add.
unfoldable pub symbols : List Bytes → List Bytes
unfolding is_hex
symbols [] = []
symbols (sym ∷ syms) = let rest = symbols syms in if is_hex sym then rest else sym ∷ rest

-- The symbols that get a warning instead.
unfoldable pub warned : List Bytes → List Bytes
unfolding is_hex
warned [] = []
warned (sym ∷ syms) = let rest = warned syms in if is_hex sym then sym ∷ rest else rest

unfoldable pub entries : List Bytes → List Bytes
unfolding default_step_filter getlines non_empty symbols
entries skip_symbols = non_empty (getlines b';' default_step_filter) ++ symbols skip_symbols

abbrev pub batch_size : ℕ
batch_size = 10

-- The inner loop: the entries of one batch, joined onto what the batch holds already.
unfoldable pub join_onto : Bytes → List Bytes → Bytes
join_onto batch [] = batch
join_onto batch (e ∷ es) =
    join_onto (if is_empty batch then batch ++ e else (batch ++ codes ";") ++ e) es

-- The outer loop, on a count of rounds that the length of the entries bounds.
unfoldable pub batches_from : ℕ → List Bytes → List Bytes
unfolding join_onto
batches_from zero es = []
batches_from (suc rounds) [] = []
batches_from (suc rounds) (e ∷ es) =
    join_onto [] (take batch_size (e ∷ es)) ∷ batches_from rounds (drop batch_size (e ∷ es))

unfoldable pub batches : List Bytes → List Bytes
unfolding batches_from
batches es = batches_from (length es) es

-- The debugger commands that set the filter, in order.
unfoldable pub filter_commands : List Bytes → List Bytes
unfolding batches entries
filter_commands skip_symbols =
    codes ".step_filter /c"
    ∷ map (λ batch. codes ".step_filter \"" ++ (batch ++ codes "\""))
        (batches (entries skip_symbols))
